-- ===== src/Scanmod/Loaded.antt =====
-- The sets of rules that `parse_rules` gives.
use make_initrd.Prelude.{
  ℕ, suc, ◌≡◌, refl, sym, Bool, true, false, not, ◌&&◌, Option, none, some, List, [], ◌∷◌, ◌++◌,
  arith, all, All, CString, if_both,
}
use make_initrd.Scanmod.Rules.{
  Keyword, kw_alias, kw_author, kw_depends, kw_description, kw_filename, kw_firmware, kw_license,
  kw_name, kw_symbol, RulePair, Ruleset, empty_set, ignored, rule, rejected, add_rule, Reading,
  done, unreadable, stopped, parse_line, parse_lines, parse_ruleset, parse_rules,
  filename_in_ruleset, lines, ◌>>=◌,
}

abbrev pub is_symbol : Keyword → Bool
is_symbol kw_symbol = true
is_symbol _ = false

abbrev pub is_filename : Keyword → Bool
is_filename kw_filename = true
is_filename _ = false

abbrev pub is_empty : List RulePair → Bool
is_empty [] = true
is_empty (r ∷ rs) = false

-- The flags say which lists have rules, and each list has the rules of its keywords.
pub record IsSorted (set : Ruleset) : Type 0 where
  pub info_flag : set.has_info ≡ not (is_empty set.info)
  pub symbols_flag : set.has_symbols ≡ not (is_empty set.symbols)
  pub paths_flag : set.has_paths ≡ not (is_empty set.paths)
  pub infos : all (λ r. not (is_symbol r.keyword) && not (is_filename r.keyword)) set.info ≡ true
  pub symbols : all (λ r. is_symbol r.keyword) set.symbols ≡ true
  pub paths : all (λ r. is_filename r.keyword) set.paths ≡ true

is_empty-append : (rs : List RulePair) (r : RulePair) → is_empty (rs ++ r ∷ []) ≡ false
is_empty-append [] r = refl
is_empty-append (x ∷ rs) r = refl

all-append :
    (p : RulePair → Bool) (rs : List RulePair) (r : RulePair)
    → all p (rs ++ r ∷ []) ≡ (all p rs && p r)
all-append p [] r = ground arith
all-append p (x ∷ rs) r = ground (arith, all-append p rs r)

module _ (n : Bool) (v : CString → Bool) (set : Ruleset) (s : IsSorted set) where
  abbrev rule_of : Keyword → RulePair
  rule_of k = record { negated = n; keyword = k; value = v }

  info_rule :
      (k : Keyword)
      → (not (is_symbol k) && not (is_filename k)) ≡ true
      → IsSorted (record set { has_info = true; info = set.info ++ rule_of k ∷ [] })
  info_rule k e = record {
    info_flag = sym (rw (is_empty-append set.info (rule_of k)));
    symbols_flag = s.symbols_flag;
    paths_flag = s.paths_flag;
    infos = rw (all-append _ set.info (rule_of k), s.infos) e;
    symbols = s.symbols;
    paths = s.paths;
  }

  add_rule-IsSorted : (k : Keyword) → IsSorted (add_rule (rule_of k) set)
  unfolding add_rule
  add_rule-IsSorted kw_symbol = record {
    info_flag = s.info_flag;
    symbols_flag = sym (rw (is_empty-append set.symbols (rule_of kw_symbol)));
    paths_flag = s.paths_flag;
    infos = s.infos;
    symbols = rw (all-append _ set.symbols (rule_of kw_symbol), s.symbols) refl;
    paths = s.paths;
  }
  add_rule-IsSorted kw_filename = record {
    info_flag = s.info_flag;
    symbols_flag = s.symbols_flag;
    paths_flag = sym (rw (is_empty-append set.paths (rule_of kw_filename)));
    infos = s.infos;
    symbols = s.symbols;
    paths = rw (all-append _ set.paths (rule_of kw_filename), s.paths) refl;
  }
  add_rule-IsSorted kw_alias = info_rule kw_alias refl
  add_rule-IsSorted kw_author = info_rule kw_author refl
  add_rule-IsSorted kw_depends = info_rule kw_depends refl
  add_rule-IsSorted kw_description = info_rule kw_description refl
  add_rule-IsSorted kw_firmware = info_rule kw_firmware refl
  add_rule-IsSorted kw_license = info_rule kw_license refl
  add_rule-IsSorted kw_name = info_rule kw_name refl

-- What was read has P, or the program has exited.
abbrev pub Loads {ℓ κ} : {A : Type ℓ} → (A → Type κ) → Reading A → Type κ
Loads P (done a) = P a
Loads P (unreadable f) = Unit
Loads P (stopped f n e) = Unit

module _ (regcomp : CString → Option (CString → Bool)) where
  lines-IsSorted :
      (n : ℕ) (ls : List (List ℕ)) (set : Ruleset)
      → IsSorted set
      → Loads IsSorted (parse_lines regcomp n ls set)
  unfolding parse_lines
  lines-IsSorted n [] set s = s
  lines-IsSorted n (l ∷ ls) set s =
      elim (parse_line regcomp l)
        as (λ x. Loads IsSorted (elim x [
          | ignored ↦ parse_lines regcomp (suc n) ls set
          | rejected e ↦ stopped set.filename n e
          | rule r ↦ parse_lines regcomp (suc n) ls (add_rule r set)
        ])) [
          | ignored ↦ lines-IsSorted (suc n) ls set s
          | rejected e ↦ tt
          | rule r ↦
              lines-IsSorted (suc n) ls (add_rule r set)
                (add_rule-IsSorted r.negated r.value set s r.keyword)
        ]

  set-IsSorted :
      (f : CString) (bytes : Option (List ℕ)) → Loads IsSorted (parse_ruleset regcomp f bytes)
  unfolding parse_ruleset
  set-IsSorted f none = tt
  set-IsSorted f (some bytes) = lines-IsSorted 1 (lines bytes) (empty_set f) (record {
    info_flag = refl;
    symbols_flag = refl;
    paths_flag = refl;
    infos = refl;
    symbols = refl;
    paths = refl;
  })

All-append :
    (sets : List Ruleset) (set : Ruleset)
    → All IsSorted sets
    → IsSorted set
    → All IsSorted (sets ++ set ∷ [])
All-append [] set h s = (s, tt)
All-append (x ∷ sets) set (a, h) s = (a, All-append sets set h s)

bind_Loads :
    (m : Reading Ruleset) (f : Ruleset → Reading (List Ruleset))
    → Loads IsSorted m
    → ((set : Ruleset) → IsSorted set → Loads (All IsSorted) (f set))
    → Loads (All IsSorted) (m >>= f)
bind_Loads (done set) f s k = k set s
bind_Loads (unreadable file) f s k = tt
bind_Loads (stopped file n e) f s k = tt

-- Whatever the files hold, where all of them are read, the flags of every set say exactly which of its
-- three lists have rules, the rules on symbols are in the list of symbols, those on the file name in
-- the list of paths, and the others in the list of the module's information.
pub parse_rules-IsSorted :
    (regcomp : CString → Option (CString → Bool)) (open_map : CString → Option (List ℕ))
    (files : List CString) (sets : List Ruleset)
    → All IsSorted sets
    → Loads (All IsSorted) (parse_rules regcomp open_map files sets)
unfolding parse_rules
parse_rules-IsSorted regcomp open_map [] sets h = h
parse_rules-IsSorted regcomp open_map (f ∷ fs) sets h =
    if_both (Loads (All IsSorted)) (filename_in_ruleset regcomp sets f) _ _
      (parse_rules-IsSorted regcomp open_map fs sets h)
      (bind_Loads (parse_ruleset regcomp f (open_map f)) _ (set-IsSorted regcomp f (open_map f))
        (λ set s.
          parse_rules-IsSorted regcomp open_map fs (sets ++ set ∷ []) (All-append sets set h s)))
