-- ===== src/Depinfo/Keeps.antt =====
-- A predicate on the state that the walk keeps.
use make_initrd.Prelude.{
  ℕ, ◌≡◌, refl, Bool, true, false, ◌&&◌, ◌||◌, Option, none, some, List, [], ◌∷◌, ◌++◌, ◌==◌,
  if◌then◌else◌, CString, codes, str_eq, if_both,
}
use make_initrd.Depinfo.Firmware.{Files, Line, process_firmware}
use make_initrd.Depinfo.Builtin.{
  KernelBuiltin, Search, found, missing, endless, find_kernel_builtin,
}
use make_initrd.Depinfo.Walk.{
  Kmod, Shows, State, Result, print, deeper, shallower, each, show_firmware, show_builtin,
  track_builtin, process_found, module_found, alias_found, process_builtin, visit_builtin,
  visit_module, visit_filtered, visit_list, process_module_list, found_list, depinfo_alias,
  soft_alias, soft_token, process_depends, process_soft_depends, process_weak_depends, entry_deps,
  process_entry, process_soft_deps, process_weak_deps, module_deps, with_info, is_white, tokens,
  module_in_list,
}
use make_initrd.Depinfo.Search.{is_endless, search-endless}
use make_initrd.Depinfo.Once.{shown, firmware-Other}

-- It does not see the tree of the entries built into the kernel and the depth, nor lines that show no
-- module, and it may see the end of the walk only where the list of entries is looped.
pub record Closed (P : State → Type 0) : Type 0 where
  pub quiet :
      (s : State) (l : List KernelBuiltin) (t : ℕ)
      → P s
      → P (record s { builtins = record s.builtins { tree = l }; show_tree = t })
  pub stops : (s : State) → s.builtins.looped ≡ true → P s → P (record s { ended = false })
  pub others :
      (s : State) (ls : List Line) → shown ls ≡ [] → P s → P (record s { out = s.out ++ ls })

builtin-Other :
    (depth : ℕ) (name : CString)
    → shown (record { depth = depth; keyword = codes "builtin"; value = name } ∷ []) ≡ []
unfolding shown str_eq
builtin-Other depth name = refl

each_kept {ℓ} :
    {P : State → Type 0} {A : Type ℓ} (f : A → State → Result)
    → ((a : A) (s : State) → P s → P (f a s).1)
    → (l : List A) (s : State) → P s
    → P (each f l s).1
unfolding each
each_kept f k [] s h = h
each_kept f k (a ∷ l) s h = each_kept f k l (f a s).1 (k a s h)

module _ (fnmatch : CString → CString → Bool) (files : Files) (kmod : Kmod) (o : Shows)
    (P : State → Type 0) (closed : Closed P) where
  firmware_kept : (l : List CString) (s : State) → P s → P (show_firmware fnmatch files kmod o l s)
  unfolding show_firmware
  firmware_kept [] s h = h
  firmware_kept (f ∷ fs) s h =
      firmware_kept fs (record s { out = s.out ++ process_firmware files o.settings s.show_tree f })
        (closed.others s _ (firmware-Other files o.settings s.show_tree f) h)

  shallower_kept : (b : Bool) (s : State) → P s → P (if b then shallower s else s)
  shallower_kept true s h = closed.quiet s s.builtins.tree _ h
  shallower_kept false s h = h

  show_kept :
      (name : CString) (l : List CString) (s : State)
      → P s
      → P (show_builtin fnmatch files kmod o name l s)
  unfolding show_builtin
  show_kept name l s h =
      let s1 = if o.builtin then deeper (print (codes "builtin") name s) else s in
      let s2 = if o.firmware then show_firmware fnmatch files kmod o l s1 else s1 in
      let line = closed.others s _ (builtin-Other s.show_tree name) h in
      let h1 : P s1 =
        if_both P o.builtin _ _
          (closed.quiet (print (codes "builtin") name s) s.builtins.tree _ line) h in
      let h2 : P s2 = if_both P o.firmware _ _ (firmware_kept l s1 h1) h1 in
      shallower_kept o.builtin s2 h2

  found_kept :
      (name : CString) (b : Search) (s : State)
      → (is_endless b ≡ true → s.builtins.looped ≡ true)
      → P s
      → P (process_found fnmatch files kmod o name b s)
  unfolding process_found track_builtin is_endless
  found_kept name endless s l h = closed.stops s (l refl) h
  found_kept name missing s l h = show_kept name [] s h
  found_kept name (found b) s l h = if_both P b.tracked _ _ h (
      show_kept b.name b.firmware (track_builtin fnmatch files kmod o b s)
        (closed.quiet s _ s.show_tree h))

  builtin_kept :
      (name : CString) (s : State) → P s → P (process_builtin fnmatch files kmod o name s)
  unfolding process_builtin
  builtin_kept name s h =
      found_kept name (find_kernel_builtin fnmatch name s.builtins) s
        (search-endless fnmatch name s.builtins) h

  module _ (self : ℕ → State → Result) (kept : (m : ℕ) (s : State) → P s → P (self m s).1) where
    found_module_kept :
        (m : ℕ) (b : Search) (s : State)
        → (is_endless b ≡ true → s.builtins.looped ≡ true)
        → P s
        → P (module_found fnmatch files kmod o self m b s).1
    unfolding module_found is_endless
    found_module_kept m endless s l h = closed.stops s (l refl) h
    found_module_kept m missing s l h = kept m s h
    found_module_kept m (found b) s l h = builtin_kept (kmod.name m) s h

    module_kept : (m : ℕ) (s : State) → P s → P (visit_module fnmatch files kmod o self m s).1
    unfolding visit_module
    module_kept m s h =
        found_module_kept m (find_kernel_builtin fnmatch (kmod.name m) s.builtins) s
          (search-endless fnmatch (kmod.name m) s.builtins) h

    filtered_kept :
        (list : List ℕ) (f : Option (List ℕ)) (s : State)
        → P s
        → P (visit_filtered fnmatch files kmod o self list f s).1
    unfolding visit_filtered visit_builtin
    filtered_kept list none s h = h
    filtered_kept list (some f) s h =
        each_kept (visit_module fnmatch files kmod o self) module_kept f
          (each (visit_builtin fnmatch files kmod o self f) list s).1
          (each_kept (visit_builtin fnmatch files kmod o self f)
            (λ m s' h'.
              if_both P (module_in_list fnmatch files kmod o m f) _ _ h'
                (builtin_kept (kmod.name m) s' h'))
            list s h)

    list_kept :
        (l : Option (List ℕ)) (s : State) → P s → P (visit_list fnmatch files kmod o self l s).1
    unfolding visit_list
    list_kept none s h = h
    list_kept (some []) s h = h
    list_kept (some (m ∷ ms)) s h = filtered_kept (m ∷ ms) (kmod.drop_builtin (m ∷ ms)) s h

    modules_kept :
        (l : List ℕ) (s : State) → P s → P (process_module_list fnmatch files kmod o self l s).1
    unfolding process_module_list
    modules_kept [] s h = h
    modules_kept (m ∷ ms) s h =
        list_kept (if o.use_blacklist then kmod.drop_blacklisted (m ∷ ms) else some (m ∷ ms)) s h

    lookup_kept :
        (optional : Bool) (l : Option (List ℕ)) (s : State)
        → P s
        → P (found_list fnmatch files kmod o self optional l s).1
    unfolding found_list
    lookup_kept optional none s h = h
    lookup_kept optional (some []) s h = h
    lookup_kept optional (some (m ∷ ms)) s h = modules_kept (m ∷ ms) s h

    found_alias_kept :
        (optional : Bool) (alias : CString) (b : Search) (s : State)
        → (is_endless b ≡ true → s.builtins.looped ≡ true)
        → P s
        → P (alias_found fnmatch files kmod o self optional alias b s).1
    unfolding alias_found is_endless
    found_alias_kept optional alias endless s l h = closed.stops s (l refl) h
    found_alias_kept optional alias missing s l h = lookup_kept optional (kmod.lookup alias) s h
    found_alias_kept optional alias (found b) s l h = builtin_kept alias s h

    alias_kept :
        (optional : Bool) (alias : CString) (s : State)
        → P s
        → P (depinfo_alias fnmatch files kmod o self optional alias s).1
    unfolding depinfo_alias
    alias_kept optional alias s h =
        found_alias_kept optional alias (find_kernel_builtin fnmatch alias s.builtins) s
          (search-endless fnmatch alias s.builtins) h

    soft_kept : (t : CString) (s : State) → P s → P (soft_alias fnmatch files kmod o self t s).1
    unfolding soft_alias
    soft_kept [] s h = h
    soft_kept (c ∷ cs) s h = alias_kept true (c ∷ cs) s h

    depends_kept :
        (val : CString) (s : State) → P s → P (process_depends fnmatch files kmod o self val s).1
    unfolding process_depends
    depends_kept val s h =
        each_kept (depinfo_alias fnmatch files kmod o self false) (alias_kept false)
          (tokens (λ c. c == b',' || is_white c) val) s h

    softs_kept :
        (val : CString) (s : State)
        → P s
        → P (process_soft_depends fnmatch files kmod o self val s).1
    unfolding process_soft_depends
    softs_kept val s h =
        each_kept (λ t. soft_alias fnmatch files kmod o self (soft_token t))
          (λ t. soft_kept (soft_token t)) (tokens is_white val) s h

    weaks_kept :
        (val : CString) (s : State)
        → P s
        → P (process_weak_depends fnmatch files kmod o self val s).1
    unfolding process_weak_depends
    weaks_kept val s h =
        each_kept (depinfo_alias fnmatch files kmod o self true) (alias_kept true)
          (tokens is_white val) s h

    deps_kept :
        (key val : CString) (s : State) → P s → P (entry_deps fnmatch files kmod o self key val s).1
    unfolding entry_deps
    deps_kept key val s h =
        let P = λ (r : Result). P r.1 in
        let weaks = process_weak_depends fnmatch files kmod o self val s in
        let softs = process_soft_depends fnmatch files kmod o self val s in
        let weak = if str_eq key (codes "weakdep") then weaks else (true, s) in
        let h1 : P weak =
          if_both P (str_eq key (codes "weakdep")) weaks (true, s) (weaks_kept val s h) h in
        let soft = if str_eq key (codes "softdep") then softs else weak in
        let h2 : P soft =
          if_both P (str_eq key (codes "softdep")) softs weak (softs_kept val s h) h1 in
        if_both P (str_eq key (codes "depends")) (process_depends fnmatch files kmod o self val s)
          soft (depends_kept val s h) h2

    entry_kept :
        (e : CString × CString) (s : State)
        → P s
        → P (process_entry fnmatch files kmod o self e s).1
    unfolding process_entry
    entry_kept (key, val) s h =
        let r =
          if o.deps && o.modules
          then entry_deps fnmatch files kmod o self key val s
          else (true, s) in
        let k : P r.1 =
          if_both (λ (x : Result). P x.1) (o.deps && o.modules)
            (entry_deps fnmatch files kmod o self key val s) (true, s) (deps_kept key val s h) h in
        if_both P (o.firmware && str_eq key (codes "firmware")) _ _ (firmware_kept (val ∷ []) r.1 k)
          k

    softdeps_kept :
        (l : Option (List ℕ × List ℕ)) (s : State)
        → P s
        → P (process_soft_deps fnmatch files kmod o self l s).1
    unfolding process_soft_deps
    softdeps_kept none s h = h
    softdeps_kept (some (pre, post)) s h =
        modules_kept post (process_module_list fnmatch files kmod o self pre s).1
          (modules_kept pre s h)

    weakdeps_kept :
        (l : Option (List ℕ)) (s : State)
        → P s
        → P (process_weak_deps fnmatch files kmod o self l s).1
    unfolding process_weak_deps
    weakdeps_kept none s h = h
    weakdeps_kept (some weak) s h = modules_kept weak s h

    module_deps_kept : (m : ℕ) (s : State) → P s → P (module_deps fnmatch files kmod o self m s).1
    unfolding module_deps
    module_deps_kept m s h =
        let soft = process_soft_deps fnmatch files kmod o self (kmod.softdeps m) s in
        let weak = process_weak_deps fnmatch files kmod o self (kmod.weakdeps m) soft.1 in
        if_both (λ (r : Result). P r.1) (o.deps && o.modules) (soft.0 && weak.0, weak.1) (true, s)
          (weakdeps_kept (kmod.weakdeps m) soft.1 (softdeps_kept (kmod.softdeps m) s h)) h

    pub info_kept :
        (m : ℕ) (p : CString) (l : Option (List (CString × CString))) (s : State)
        → P s
        → P (print (codes "module") p s)
        → P (with_info fnmatch files kmod o self m p l s).1
    unfolding with_info
    info_kept m p none s h k = h
    info_kept m p (some list) s h k =
        let s1 = if o.modules then deeper (print (codes "module") p s) else s in
        let h1 : P s1 =
          if_both P o.modules _ _ (closed.quiet (print (codes "module") p s) s.builtins.tree _ k)
            h in
        let s2 = (each (process_entry fnmatch files kmod o self) list s1).1 in
        let h2 = each_kept (process_entry fnmatch files kmod o self) entry_kept list s1 h1 in
        let s3 = (module_deps fnmatch files kmod o self m s2).1 in
        closed.quiet s3 s3.builtins.tree _ (module_deps_kept m s2 h2)
