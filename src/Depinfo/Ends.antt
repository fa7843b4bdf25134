-- ===== src/Depinfo/Ends.antt =====
-- The walk ends.
use make_initrd.Prelude.{
  ℕ, zero, suc, ◌≤◌, ◌<◌, ◌≡◌, sym, ap, ◌∙◌, Bool, true, false, some, List, [], ◌∷◌, arith,
  if◌then◌else◌, length, CString, str_eq, str_eq_iff, if_cases, Bool-cases, inl, inr,
}
use mathlib.Core.Path.{subst}
use make_initrd.Depinfo.Firmware.{Files}
use make_initrd.Depinfo.Walk.{Kmod, Shows, State, Result, with_info, visit, depinfo}
use make_initrd.Depinfo.Once.{contains}
use make_initrd.Depinfo.Keeps.{Closed, info_kept}

-- How many of the paths are not tracked.
left : List CString → List CString → ℕ
left [] tracked = 0
left (p ∷ ps) tracked = if contains p tracked then left ps tracked else suc (left ps tracked)

left-length : (ps tracked : List CString) → left ps tracked ≤ length ps
unfolding left
left-length [] tracked = omega arith
left-length (p ∷ ps) tracked = ground (arith, left-length ps tracked)

left-more : (p : CString) (ps tracked : List CString) → left ps (p ∷ tracked) ≤ left ps tracked
unfolding left
left-more p [] tracked = omega arith
left-more p (q ∷ ps) tracked = ground (arith, left-more p ps tracked)

same_path : (p q : CString) → str_eq q p ≡ true → (str_eq p q ≡ true) × (q ≡ p)
same_path p q h = let e : q ≡ p = (str_eq_iff q p).0 h in ((str_eq_iff p q).1 (sym e), e)

-- Tracking one of the paths leaves fewer.
left-less :
    (p : CString) (ps tracked : List CString)
    → contains p ps ≡ true
    → contains p tracked ≡ false
    → left ps (p ∷ tracked) < left ps tracked
unfolding left
left-less p [] tracked h k = cc
left-less p (q ∷ ps) tracked h k = elim (Bool-cases (str_eq q p)) [
  | inl same ↦
      let (back, e) = same_path p q same in
      let new : contains q tracked ≡ false = ap (λ x. contains x tracked) e ∙ k in
      ground (arith, back, new, left-more p ps tracked)
  | inr other ↦ ground (arith, left-less p ps tracked)
]

-- The fuel has not run out, at most `k` paths are left, and each look-up ends.
abbrev Within : List CString → ℕ → State → Type 0
Within ps k s = (s.ended ≡ true) × (left ps s.tracked_modules ≤ k) × (s.builtins.looped ≡ false)

Within-Closed : (ps : List CString) (k : ℕ) → Closed (Within ps k)
Within-Closed ps k = record {
  quiet = λ s l t h. h;
  stops = λ s looped (e, l, open_end). cc;
  others = λ s ls e h. h;
}

module _ (fnmatch : CString → CString → Bool) (files : Files) (kmod : Kmod) (o : Shows)
    (ps : List CString) where
  visit_new :
      (self : ℕ → State → Result) (k m : ℕ) (p : CString) (s : State)
      → ((n : ℕ) (s : State) → Within ps k s → Within ps k (self n s).1)
      → Within ps (suc k) s
      → contains p ps ≡ true
      → contains p s.tracked_modules ≡ false
      → Within ps
          (suc k)
          (with_info fnmatch files kmod o self m p
            (kmod.info m)
            (record s { tracked_modules = p ∷ s.tracked_modules })).1
  visit_new self k m p s kept (e, l, n) i new =
      let s' = record s { tracked_modules = p ∷ s.tracked_modules } in
      let inside : Within ps k s' = (e, omega (arith, left-less p ps s.tracked_modules i new), n) in
      let (e', l', n') =
        info_kept fnmatch files kmod o (Within ps k) (Within-Closed ps k) self kept m p
          (kmod.info m) s' inside inside in
      (e', omega arith, n')

  visit_known :
      (self : ℕ → State → Result) (fuel k m : ℕ) (p : CString) (s : State)
      → k < suc fuel
      → ((k : ℕ) → k < fuel → (n : ℕ) (s : State) → Within ps k s → Within ps k (self n s).1)
      → Within ps k s
      → contains p ps ≡ true
      → Within ps k (visit fnmatch files kmod o self m (some p) s).1
  unfolding visit
  visit_known self fuel zero m p s l kept h i =
      if_cases (λ (r : Result). Within ps zero r.1) (contains p s.tracked_modules) (true, s) _
        (λ known. h) (λ new. absurd (omega (arith, h.1, left-less p ps s.tracked_modules i new)))
  visit_known self fuel (suc k) m p s l kept h i =
      if_cases (λ (r : Result). Within ps (suc k) r.1) (contains p s.tracked_modules) (true, s) _
        (λ known. h) (λ new. visit_new self k m p s (kept k (omega arith)) h i new)

  module _ (known : (m : ℕ) → (p : CString) × (kmod.path m ≡ some p) × (contains p ps ≡ true)) where
    depinfo-Within :
        (fuel k m : ℕ) (s : State)
        → k < fuel
        → Within ps k s
        → Within ps k (depinfo fnmatch files kmod o fuel m s).1
    unfolding depinfo
    depinfo-Within zero k m s l h = absurd (omega arith)
    depinfo-Within (suc fuel) k m s l h =
        let (p, e, i) = known m in
        subst
          (λ q.
            Within ps k (visit fnmatch files kmod o (depinfo fnmatch files kmod o fuel) m q s).1)
          (sym e)
          (visit_known (depinfo fnmatch files kmod o fuel) fuel k m p s l
            (λ j r n s'. depinfo-Within fuel j n s' r) h i)

-- Where each module has a path and the paths are among a list, and the list of the entries with aliases
-- has no loop, one level of calls more than the paths' list is long is enough for depinfo, even where
-- modules need each other, and no look-up goes on for ever.
pub depinfo_ends :
    (fnmatch : CString → CString → Bool) (files : Files) (kmod : Kmod) (o : Shows)
    (ps : List CString)
    → ((m : ℕ) → (p : CString) × (kmod.path m ≡ some p) × (contains p ps ≡ true))
    → (m : ℕ) (s : State) → s.ended ≡ true
    → s.builtins.looped ≡ false
    → (depinfo fnmatch files kmod o (suc (length ps)) m s).1.ended ≡ true
depinfo_ends fnmatch files kmod o ps known m s e n =
    (depinfo-Within fnmatch files kmod o ps known (suc (length ps)) (length ps) m s (omega arith)
      (e, left-length ps s.tracked_modules, n)).0
