-- ===== src/Depinfo/Walk.antt =====
-- utils/depinfo/kmod-depinfo.c: the dependencies. A module is a number; what libkmod says of it is the
-- record `Kmod`, and none is an error. The fuel of `depinfo` bounds how deep its calls nest; where it
-- runs out, or a look-up never ends, `ended` is false from then on. A function answers with whether it returns 0 or more.
use make_initrd.Prelude.{
  ℕ, zero, suc, ◌-◌, Bool, true, false, ◌&&◌, ◌||◌, Option, none, some, List, [], ◌∷◌, ◌++◌, ◌==◌,
  ltb, if◌then◌else◌, any, take, drop, CString, codes, str_eq,
}
use make_initrd.Depinfo.Firmware.{Files, Line, Settings, process_firmware}
use make_initrd.Depinfo.Builtin.{
  KernelBuiltin, Builtins, Search, found, missing, endless, change, find_kernel_builtin,
}

pub record Kmod : Type 0 where
  pub path : ℕ → Option CString
  pub name : ℕ → CString
  pub info : ℕ → Option (List (CString × CString))
  pub lookup : CString → Option (List ℕ)
  pub softdeps : ℕ → Option (List ℕ × List ℕ)
  pub weakdeps : ℕ → Option (List ℕ)
  pub drop_blacklisted : List ℕ → Option (List ℕ)
  pub drop_builtin : List ℕ → Option (List ℕ)

pub record Shows : Type 0 where
  pub deps : Bool
  pub modules : Bool
  pub firmware : Bool
  pub builtin : Bool
  pub use_blacklist : Bool
  pub settings : Settings

pub record State : Type 0 where
  pub builtins : Builtins
  pub tracked_modules : List CString
  pub show_tree : ℕ
  pub out : List Line
  pub ended : Bool

abbrev pub Result : Type 0
Result = Bool × State

abbrev pub print : CString → CString → State → State
print keyword value s = record s {
  out = s.out ++ record { depth = s.show_tree; keyword = keyword; value = value } ∷ [];
}

abbrev pub deeper : State → State
deeper s = record s { show_tree = if s.show_tree == 0 then 0 else suc s.show_tree }

abbrev pub shallower : State → State
shallower s = record s { show_tree = if ltb 1 s.show_tree then s.show_tree - 1 else s.show_tree }

-- The calls go on after an error, which is kept.
unfoldable pub each {ℓ} : {A : Type ℓ} → (A → State → Result) → List A → State → Result
each f [] s = (true, s)
each f (a ∷ l) s = let (ok, s') = f a s in let (oks, s'') = each f l s' in (ok && oks, s'')

-- strtok_r
unfoldable pub tokens : (ℕ → Bool) → CString → List CString
tokens delim [] = []
tokens delim (c ∷ cs) =
    let rest = tokens delim cs in
    let first : Bool = elim cs [ [] ↦ true | d ∷ ds ↦ delim d ] in
    if delim c
    then rest
    else if first
    then (c ∷ []) ∷ rest
    else elim rest [ [] ↦ (c ∷ []) ∷ [] | t ∷ ts ↦ (c ∷ t) ∷ ts ]

abbrev pub is_white : ℕ → Bool
is_white c = c == 32 || (c == 9 || (c == 13 || c == 10))

-- What is left of a token of a soft dependency; an empty one is passed over.
unfoldable pub soft_token : CString → CString
soft_token t =
    if str_eq (take 4 t) (codes "pre:")
    then drop 4 t
    else if str_eq (take 5 t) (codes "post:")
    then drop 5 t
    else t

module _ (fnmatch : CString → CString → Bool) (files : Files) (kmod : Kmod) (o : Shows) where
  unfoldable pub show_firmware : List CString → State → State
  unfolding process_firmware
  show_firmware [] s = s
  show_firmware (f ∷ fs) s =
      show_firmware fs (record s { out = s.out ++ process_firmware files o.settings s.show_tree f })

  unfoldable pub show_builtin : CString → List CString → State → State
  unfolding show_firmware
  show_builtin name firmware s =
      let s1 = if o.builtin then deeper (print (codes "builtin") name s) else s in
      let s2 = if o.firmware then show_firmware firmware s1 else s1 in
      if o.builtin then shallower s2 else s2

  unfoldable pub track_builtin : KernelBuiltin → State → State
  unfolding change
  track_builtin b s = record s {
    builtins = record s.builtins {
      tree = change b.name (λ e. record e { tracked = true }) s.builtins.tree;
    };
  }

  -- The entry that was found under the name, once.
  unfoldable pub process_found : CString → Search → State → State
  unfolding show_builtin track_builtin
  process_found name endless s = record s { ended = false }
  process_found name missing s = show_builtin name [] s
  process_found name (found b) s =
      let shown = show_builtin b.name b.firmware (track_builtin b s) in
      if b.tracked then s else shown

  unfoldable pub process_builtin : CString → State → State
  unfolding find_kernel_builtin process_found
  process_builtin name s = process_found name (find_kernel_builtin fnmatch name s.builtins) s

  unfoldable pub module_in_list : ℕ → List ℕ → Bool
  module_in_list m list = any (λ n. str_eq (kmod.name n) (kmod.name m)) list

  module _ (self : ℕ → State → Result) where
    unfoldable pub visit_builtin : List ℕ → ℕ → State → Result
    unfolding process_builtin module_in_list
    visit_builtin filtered m s =
        (true, if module_in_list m filtered then s else process_builtin (kmod.name m) s)

    unfoldable pub module_found : ℕ → Search → State → Result
    unfolding process_builtin
    module_found m endless s = (true, record s { ended = false })
    module_found m missing s = self m s
    module_found m (found b) s = (true, process_builtin (kmod.name m) s)

    unfoldable pub visit_module : ℕ → State → Result
    unfolding find_kernel_builtin module_found
    visit_module m s = module_found m (find_kernel_builtin fnmatch (kmod.name m) s.builtins) s

    unfoldable pub visit_filtered : List ℕ → Option (List ℕ) → State → Result
    unfolding each visit_builtin visit_module
    visit_filtered list none s = (false, s)
    visit_filtered list (some filtered) s =
        each visit_module filtered (each (visit_builtin filtered) list s).1

    unfoldable pub visit_list : Option (List ℕ) → State → Result
    unfolding visit_filtered
    visit_list none s = (false, s)
    visit_list (some []) s = (true, s)
    visit_list (some (m ∷ ms)) s = visit_filtered (m ∷ ms) (kmod.drop_builtin (m ∷ ms)) s

    unfoldable pub process_module_list : List ℕ → State → Result
    unfolding visit_list
    process_module_list [] s = (true, s)
    process_module_list (m ∷ ms) s =
        visit_list (if o.use_blacklist then kmod.drop_blacklisted (m ∷ ms) else some (m ∷ ms)) s

    -- The flag is ALIAS_OPTIONAL.
    unfoldable pub found_list : Bool → Option (List ℕ) → State → Result
    unfolding process_module_list
    found_list optional none s = (optional, s)
    found_list optional (some []) s = (optional, s)
    found_list optional (some (m ∷ ms)) s = process_module_list (m ∷ ms) s

    unfoldable pub alias_found : Bool → CString → Search → State → Result
    unfolding process_builtin found_list
    alias_found optional alias endless s = (true, record s { ended = false })
    alias_found optional alias missing s = found_list optional (kmod.lookup alias) s
    alias_found optional alias (found b) s = (true, process_builtin alias s)

    unfoldable pub depinfo_alias : Bool → CString → State → Result
    unfolding find_kernel_builtin alias_found
    depinfo_alias optional alias s =
        alias_found optional alias (find_kernel_builtin fnmatch alias s.builtins) s

    unfoldable pub soft_alias : CString → State → Result
    unfolding depinfo_alias
    soft_alias [] s = (true, s)
    soft_alias (c ∷ cs) s = depinfo_alias true (c ∷ cs) s

    unfoldable pub process_depends : CString → State → Result
    unfolding each tokens depinfo_alias
    process_depends depends s =
        each (depinfo_alias false) (tokens (λ c. c == b',' || is_white c) depends) s

    unfoldable pub process_soft_depends : CString → State → Result
    unfolding each tokens soft_token soft_alias
    process_soft_depends depends s =
        each (λ t. soft_alias (soft_token t)) (tokens is_white depends) s

    unfoldable pub process_weak_depends : CString → State → Result
    unfolding each tokens depinfo_alias
    process_weak_depends depends s = each (depinfo_alias true) (tokens is_white depends) s

    unfoldable pub entry_deps : CString → CString → State → Result
    unfolding process_depends process_soft_depends process_weak_depends
    entry_deps key val s =
        if str_eq key (codes "depends")
        then process_depends val s
        else if str_eq key (codes "softdep")
        then process_soft_depends val s
        else if str_eq key (codes "weakdep")
        then process_weak_depends val s
        else (true, s)

    unfoldable pub process_entry : CString × CString → State → Result
    unfolding entry_deps show_firmware
    process_entry (key, val) s =
        let (ok, s') = if o.deps && o.modules then entry_deps key val s else (true, s) in
        (
          ok,
          if o.firmware && str_eq key (codes "firmware") then show_firmware (val ∷ []) s' else s',
        )

    unfoldable pub process_soft_deps : Option (List ℕ × List ℕ) → State → Result
    unfolding process_module_list
    process_soft_deps none s = (true, s)
    process_soft_deps (some (pre, post)) s =
        let (ok, s') = process_module_list pre s in
        let (oks, s'') = process_module_list post s' in (ok && oks, s'')

    unfoldable pub process_weak_deps : Option (List ℕ) → State → Result
    unfolding process_module_list
    process_weak_deps none s = (true, s)
    process_weak_deps (some weak) s = process_module_list weak s

    unfoldable pub module_deps : ℕ → State → Result
    unfolding process_soft_deps process_weak_deps
    module_deps m s =
        let (ok, s') = process_soft_deps (kmod.softdeps m) s in
        let (oks, s'') = process_weak_deps (kmod.weakdeps m) s' in
        if o.deps && o.modules then (ok && oks, s'') else (true, s)

    unfoldable pub with_info : ℕ → CString → Option (List (CString × CString)) → State → Result
    unfolding each process_entry module_deps
    with_info m shown none s = (false, s)
    with_info m shown (some list) s =
        let s1 = if o.modules then deeper (print (codes "module") shown s) else s in
        let (ok, s2) = each process_entry list s1 in
        let (oks, s3) = module_deps m s2 in (ok && oks, shallower s3)

    -- A module without a path is not tracked, and printf shows "(null)".
    unfoldable pub visit : ℕ → Option CString → State → Result
    unfolding with_info
    visit m none s = with_info m (codes "(null)") (kmod.info m) s
    visit m (some p) s =
        let visited =
          with_info m p (kmod.info m) (record s { tracked_modules = p ∷ s.tracked_modules }) in
        if any (λ q. str_eq q p) s.tracked_modules then (true, s) else visited

  unfoldable pub depinfo : ℕ → ℕ → State → Result
  unfolding visit
  depinfo zero m s = (true, record s { ended = false })
  depinfo (suc fuel) m s = visit (depinfo fuel) m (kmod.path m) s
