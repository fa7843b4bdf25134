-- ===== src/Scanmod/Chosen.antt =====
-- Which modules are printed.
use make_initrd.Prelude.{
  ◌≡◌, refl, sym, ◌∙◌, Bool, true, false, not, ◌&&◌, ◌||◌, Option, none, some, List, [], ◌∷◌, arith,
  if◌then◌else◌, any, all, CString, Bool-cases, if_both, Option-cases, inl, inr,
}
use make_initrd.Scanmod.Rules.{RulePair, Ruleset}
use make_initrd.Scanmod.Match.{
  match_filename, InfoEntry, value_fits, entry_fits, some_entry, match, has_symbol_match,
  match_symbols, fetch, keep_symbols, Answers, InfoState, SymbolsState, ModuleData, blank,
  init_module_mod, read_info, info_part, read_symbols, symbols_part, process_module_ruleset,
  process_sets, process_module,
}

-- A rule holds of a module where some text fits it, or, for a not- rule, where none does.
abbrev pub holds : RulePair → Bool → Bool
holds r found = if r.negated then not found else found

-- Every rule of the set holds: of the file's name, of the information under its keyword, of the
-- symbols provided or required. What libkmod cannot give fits no rule, a not- rule included.
pub accepts_info : Answers → Ruleset → Bool
accepts_info k set =
    k.opens
    && elim k.info [ none ↦ false | some l ↦ all (λ r. holds r (any (entry_fits r) l)) set.info ]

pub fetched_fit : Option (List (Option CString) × List (Option CString)) → List RulePair → Bool
fetched_fit none rs = false
fetched_fit (some (p, q)) rs = all (λ r. holds r (any (value_fits r) p || any (value_fits r) q)) rs

pub accepts_symbols : Answers → Ruleset → Bool
accepts_symbols k set = k.opens && fetched_fit (fetch k) set.symbols

pub accepts : Answers → CString → Ruleset → Bool
accepts k filename set =
    (set.has_paths || (set.has_info || set.has_symbols))
    && ((not set.has_paths || all (λ r. holds r (r.value filename)) set.paths)
        && ((not set.has_info || accepts_info k set)
            && (not set.has_symbols || accepts_symbols k set)))

match_filename-all :
    (f : CString) (rs : List RulePair) → match_filename f rs ≡ all (λ r. holds r (r.value f)) rs
unfolding match_filename
match_filename-all f [] = refl
match_filename-all f (r ∷ rs) = ground (arith, match_filename-all f rs)

some_entry-any : (r : RulePair) (l : List InfoEntry) → some_entry r l ≡ any (entry_fits r) l
unfolding some_entry
some_entry-any r [] = refl
some_entry-any r (e ∷ es) = ground (arith, some_entry-any r es)

match-all :
    (l : List InfoEntry) (rs : List RulePair)
    → match l rs ≡ all (λ r. holds r (any (entry_fits r) l)) rs
unfolding match
match-all l [] = refl
match-all l (r ∷ rs) = ground (arith, match-all l rs, some_entry-any r l)

symbol-any :
    (r : RulePair) (l : List (Option CString)) → has_symbol_match l r ≡ any (value_fits r) l
unfolding has_symbol_match
symbol-any r [] = refl
symbol-any r (s ∷ ss) = ground (arith, symbol-any r ss)

match_symbols-all :
    (p q : List (Option CString)) (rs : List RulePair)
    → match_symbols p q rs ≡ all (λ r. holds r (any (value_fits r) p || any (value_fits r) q)) rs
unfolding match_symbols
match_symbols-all p q [] = refl
match_symbols-all p q (r ∷ rs) =
    ground (arith, match_symbols-all p q rs, symbol-any r p, symbol-any r q)

-- What is kept of a module is what libkmod answers.
abbrev InfoIs : Answers → InfoState → Type 0
InfoIs k InfoState.unread = Unit
InfoIs k (InfoState.read l) = k.info ≡ some l
InfoIs k InfoState.failed = k.info ≡ none

abbrev SymbolsAre : Answers → SymbolsState → Type 0
SymbolsAre k SymbolsState.unread = Unit
SymbolsAre k (SymbolsState.read p q) = fetch k ≡ some (p, q)
SymbolsAre k SymbolsState.failed = fetch k ≡ none

record Cached (k : Answers) (m : ModuleData) : Type 0 where
  opened : m.mod_set ≡ true → k.opens ≡ true
  info : InfoIs k m.info_state
  symbols : SymbolsAre k m.symbols_state

abbrev mdata : Bool → InfoState → SymbolsState → ModuleData
mdata b i s = record { mod_set = b; info_state = i; symbols_state = s }

module _ (k : Answers) (f : CString) (named : k.opens ≡ true → k.named ≡ true) where
  init_lem :
      (b : Bool) (i : InfoState) (s : SymbolsState)
      → let m = mdata b i s in
        Cached k m → ((init_module_mod k f m).0 ≡ k.opens) × Cached k (init_module_mod k f m).1
  unfolding init_module_mod
  init_lem true i s c = (sym (c.opened refl), c)
  init_lem false i s c = elim (Bool-cases k.opens) [
    | inl opens ↦
        simp opens (named opens, record { opened = λ e. opens; info = c.info; symbols = c.symbols })
    | inr shut ↦ simp shut (refl, c)
  ]

  read_info_lem :
      (b : Bool) (i : InfoState) (s : SymbolsState) (set : Ruleset)
      → k.opens ≡ true
      → let m = mdata b i s in
        Cached k m
        → ((read_info k f m set).0 ≡ accepts_info k set) × Cached k (read_info k f m set).1
  unfolding read_info accepts_info
  read_info_lem b InfoState.unread s set o c = elim (Option-cases k.info) [
    | inl nil ↦ simp (o, nil) (refl, record { opened = c.opened; info = nil; symbols = c.symbols })
    | inr (l, e) ↦
        simp (o, e)
          (match-all l set.info, record { opened = c.opened; info = e; symbols = c.symbols })
  ]
  read_info_lem b (InfoState.read l) s set o c = (simp (o, c.info) (match-all l set.info), c)
  read_info_lem b InfoState.failed s set o c = (simp (o, c.info) refl, c)

  keep_lem :
      (r : Option (List (Option CString) × List (Option CString)))
      → fetch k ≡ r
      → (m : ModuleData) (set : Ruleset) → Cached k m
      → ((keep_symbols r m set).0 ≡ fetched_fit r set.symbols) × Cached k (keep_symbols r m set).1
  unfolding keep_symbols fetched_fit
  keep_lem none e m set c = (refl, record { opened = c.opened; info = c.info; symbols = e })
  keep_lem (some (p, q)) e m set c =
      (match_symbols-all p q set.symbols, record { opened = c.opened; info = c.info; symbols = e })

  read_symbols_lem :
      (b : Bool) (i : InfoState) (s : SymbolsState) (set : Ruleset)
      → k.opens ≡ true
      → let m = mdata b i s in
        Cached k m
        → ((read_symbols k f m set).0 ≡ accepts_symbols k set) × Cached k (read_symbols k f m set).1
  unfolding read_symbols accepts_symbols fetched_fit
  read_symbols_lem b i SymbolsState.unread set o c =
      let (fits, kept) = keep_lem (fetch k) refl (mdata b i SymbolsState.unread) set c in
      (fits ∙ sym (simp o refl), kept)
  read_symbols_lem b i (SymbolsState.read p q) set o c =
      (simp (o, c.symbols) (match_symbols-all p q set.symbols), c)
  read_symbols_lem b i SymbolsState.failed set o c = (simp (o, c.symbols) refl, c)

  -- A part of the rules, behind `init_module_mod`.
  part_lem :
      (needed : Bool) (o : Bool × ModuleData) (run : ModuleData → Bool × ModuleData)
      (m : ModuleData) (fits : Bool)
      → Cached k m
      → (o.0 ≡ k.opens) × Cached k o.1
      → (k.opens ≡ true → Cached k o.1 → ((run o.1).0 ≡ fits) × Cached k (run o.1).1)
      → (k.opens ≡ false → fits ≡ false)
      → let r = if not needed then (true, m) else if o.0 then run o.1 else (false, o.1) in
        (r.0 ≡ (not needed || fits)) × Cached k r.1
  part_lem false o run m fits c i h z = (refl, c)
  part_lem true (true, m') run m fits c (e, c') h z = h (sym e) c'
  part_lem true (false, m') run m fits c (e, c') h z = (sym (z (sym e)), c')

  info_part_lem :
      (m : ModuleData) (set : Ruleset)
      → Cached k m
      → ((info_part k f m set).0 ≡ (not set.has_info || accepts_info k set))
        × Cached k (info_part k f m set).1
  unfolding info_part accepts_info
  info_part_lem m set c =
      let o = init_module_mod k f m in
      part_lem set.has_info o (λ m'. read_info k f m' set) m (accepts_info k set) c
        (init_lem m.mod_set m.info_state m.symbols_state c)
        (λ e. read_info_lem o.1.mod_set o.1.info_state o.1.symbols_state set e) (λ e. simp e refl)

  symbols_part_lem :
      (m : ModuleData) (set : Ruleset)
      → Cached k m
      → ((symbols_part k f m set).0 ≡ (not set.has_symbols || accepts_symbols k set))
        × Cached k (symbols_part k f m set).1
  unfolding symbols_part accepts_symbols
  symbols_part_lem m set c =
      let o = init_module_mod k f m in
      part_lem set.has_symbols o (λ m'. read_symbols k f m' set) m (accepts_symbols k set) c
        (init_lem m.mod_set m.info_state m.symbols_state c)
        (λ e. read_symbols_lem o.1.mod_set o.1.info_state o.1.symbols_state set e)
        (λ e. simp e refl)

  abbrev KeepsCache : Bool × ModuleData → Type 0
  KeepsCache w = Cached k w.1

  ruleset_lem :
      (m : ModuleData) (set : Ruleset)
      → Cached k m
      → ((process_module_ruleset k f m set).0 ≡ accepts k f set)
        × Cached k (process_module_ruleset k f m set).1
  unfolding process_module_ruleset accepts
  ruleset_lem m set c =
      let (i, c1) = info_part_lem m set c in
      let m1 = (info_part k f m set).1 in
      let last = if (info_part k f m set).0 then symbols_part k f m1 set else (false, m1) in
      let found =
        if set.has_paths && not (set.has_info || set.has_symbols) then (true, m) else last in
      let (s, c2) = symbols_part_lem m1 set c1 in
      (
        ground (arith, i, s, match_filename-all f set.paths),
        if_both KeepsCache (not (set.has_paths || (set.has_info || set.has_symbols))) (false, m)
            (if set.has_paths && not (match_filename f set.paths) then (false, m) else found) c
            (if_both KeepsCache (set.has_paths && not (match_filename f set.paths)) (false, m) found
              c
              (if_both KeepsCache (set.has_paths && not (set.has_info || set.has_symbols)) (true, m)
                last c
                (if_both KeepsCache (info_part k f m set).0 (symbols_part k f m1 set) (false, m1) c2
                  c1))),
      )

  sets_lem :
      (m : ModuleData) (sets : List Ruleset)
      → Cached k m
      → process_sets k f m sets ≡ any (accepts k f) sets
  unfolding process_sets
  sets_lem m [] c = refl
  sets_lem m (set ∷ sets) c =
      let (e, c') = ruleset_lem m set c in
      ground (arith, e, sets_lem (process_module_ruleset k f m set).1 sets c')

-- Where libkmod gives every module that it opens a name, a file is printed exactly if every rule of
-- some set of rules holds of it; that what libkmod answers is kept from one set to the next makes no
-- difference.
pub process_module_lem :
    (k : Answers) (f : CString) (sets : List Ruleset)
    → (k.opens ≡ true → k.named ≡ true)
    → process_module k f sets ≡ any (accepts k f) sets
unfolding process_module
process_module_lem k f sets named =
    sets_lem k f named blank sets (record { opened = λ e. cc; info = tt; symbols = tt })
