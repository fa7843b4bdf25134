-- ===== src/Depinfo/Tracked.antt =====
-- No module is shown twice.
use make_initrd.Prelude.{
  ℕ, zero, suc, ◌≡◌, refl, sym, ap, ◌∙◌, Bool, true, false, ◌||◌, Option, none, some, List, [], ◌∷◌,
  ◌++◌, arith, all, CString, codes, str_eq, str_eq_iff, if_cases, Bool-cases, inl, inr,
}
use make_initrd.Depinfo.Firmware.{Files, Line}
use make_initrd.Depinfo.Walk.{Kmod, Shows, State, Result, print, with_info, visit, depinfo}
use make_initrd.Depinfo.Once.{
  is_absolute, shown, shown-append, contains, unique, Once, IsOnce, append_other,
}
use make_initrd.Depinfo.Keeps.{Closed, info_kept}

str_eq_refl : (p : CString) → str_eq p p ≡ true
str_eq_refl p = (str_eq_iff p p).1 refl

print_null : (s : State) → IsOnce s → IsOnce (print (codes "module") (codes "(null)") s)
unfolding shown str_eq
print_null s h = record { kept = append_other s.out _ s.tracked_modules refl h.kept }

-- Tracking one more path.
all-wider :
    (p : CString) (tracked ps : List CString)
    → all (λ q. contains q tracked) ps ≡ true
    → all (λ q. contains q (p ∷ tracked)) ps ≡ true
all-wider p tracked [] h = refl
all-wider p tracked (q ∷ ps) h = ground (arith, all-wider p tracked ps)

abbrev tracked_too : CString → State → State
tracked_too p s = record s { tracked_modules = p ∷ s.tracked_modules }

track : (p : CString) (s : State) → IsOnce s → IsOnce (tracked_too p s)
track p s h = record {
  kept = record {
    once = h.kept.once;
    all_tracked = all-wider p s.tracked_modules (shown s.out) h.kept.all_tracked;
  };
}

same_member :
    (p q : CString) (tracked : List CString)
    → str_eq q p ≡ true
    → contains q tracked ≡ contains p tracked
same_member p q tracked h = ap (λ x. contains x tracked) ((str_eq_iff q p).0 h)

-- What is not tracked is not shown.
not_shown :
    (p : CString) (tracked ps : List CString)
    → all (λ q. contains q tracked) ps ≡ true
    → contains p tracked ≡ false
    → contains p ps ≡ false
not_shown p tracked [] h k = refl
not_shown p tracked (q ∷ ps) h k = ground (arith, not_shown p tracked ps, same_member p q tracked)

contains-append :
    (q : CString) (ps : List CString) (p : CString)
    → contains q (ps ++ p ∷ []) ≡ (contains q ps || str_eq p q)
contains-append q [] p = ground arith
contains-append q (x ∷ ps) p = ground (arith, contains-append q ps p)

conflict : (p q : CString) → str_eq q p ≡ false → p ≡ q → ⊥
conflict p q h e = let yes : str_eq q p ≡ true = (str_eq_iff q p).1 (sym e) in cc

other_way : (p q : CString) → str_eq q p ≡ false → str_eq p q ≡ false
other_way p q h = elim (Bool-cases (str_eq p q)) [
  | inl same ↦ absurd (conflict p q h ((str_eq_iff p q).0 same))
  | inr other ↦ other
]

unique-append :
    (ps : List CString) (p : CString)
    → unique ps ≡ true
    → contains p ps ≡ false
    → unique (ps ++ p ∷ []) ≡ true
unfolding unique
unique-append [] p h k = refl
unique-append (q ∷ ps) p h k =
    ground (arith, unique-append ps p, contains-append q ps p, other_way p q)

all-append :
    (f : CString → Bool) (ps : List CString) (p : CString)
    → all f ps ≡ true
    → f p ≡ true
    → all f (ps ++ p ∷ []) ≡ true
all-append f [] p h k = ground arith
all-append f (q ∷ ps) p h k = ground (arith, all-append f ps p)

one_shown :
    (depth : ℕ) (p : CString)
    → is_absolute p ≡ true
    → shown (record { depth = depth; keyword = codes "module"; value = p } ∷ []) ≡ p ∷ []
unfolding shown str_eq
one_shown depth p h = rw h refl

none_shown :
    (depth : ℕ) (p : CString)
    → is_absolute p ≡ false
    → shown (record { depth = depth; keyword = codes "module"; value = p } ∷ []) ≡ []
unfolding shown str_eq
none_shown depth p h = rw h refl

print_new :
    (p : CString) (s : State)
    → contains p s.tracked_modules ≡ false
    → IsOnce s
    → IsOnce (print (codes "module") p (tracked_too p s))
print_new p s new h =
    let wide = (track p s h).kept in
    let line : Line = record { depth = s.show_tree; keyword = codes "module"; value = p } in
    let here : contains p (p ∷ s.tracked_modules) ≡ true = rw (str_eq_refl p) refl in
    let kept : Once (s.out ++ line ∷ []) (p ∷ s.tracked_modules) =
      elim (Bool-cases (is_absolute p)) [
        | inl absolute ↦
            let e : shown (s.out ++ line ∷ []) ≡ shown s.out ++ p ∷ [] =
              shown-append s.out (line ∷ [])
              ∙ ap (λ x. shown s.out ++ x) (one_shown s.show_tree p absolute) in
            record {
              once = rw e (
                  unique-append (shown s.out) p h.kept.once
                    (not_shown p s.tracked_modules (shown s.out) h.kept.all_tracked new));
              all_tracked = rw e (
                  all-append (λ q. contains q (p ∷ s.tracked_modules)) (shown s.out) p
                    wide.all_tracked here);
            }
        | inr relative ↦
            append_other s.out (line ∷ []) (p ∷ s.tracked_modules)
              (none_shown s.show_tree p relative) wide
      ] in
    record { kept = kept }

IsOnce-Closed : Closed IsOnce
IsOnce-Closed = record {
  quiet = λ s b t h. record { kept = h.kept };
  stops = λ s l h. record { kept = h.kept };
  others = λ s ls e h. record { kept = append_other s.out ls s.tracked_modules e h.kept };
}

module _ (fnmatch : CString → CString → Bool) (files : Files) (kmod : Kmod) (o : Shows)
    (self : ℕ → State → Result) (kept : (m : ℕ) (s : State) → IsOnce s → IsOnce (self m s).1) where
  info-Once :
      (m : ℕ) (p : CString) (l : Option (List (CString × CString))) (s : State)
      → IsOnce s
      → IsOnce (print (codes "module") p s)
      → IsOnce (with_info fnmatch files kmod o self m p l s).1
  info-Once = info_kept fnmatch files kmod o IsOnce IsOnce-Closed self kept

  visit-Once :
      (m : ℕ) (p : Option CString) (s : State)
      → IsOnce s
      → IsOnce (visit fnmatch files kmod o self m p s).1
  unfolding visit
  visit-Once m none s h = info-Once m (codes "(null)") (kmod.info m) s h (print_null s h)
  visit-Once m (some p) s h =
      if_cases (λ (r : Result). IsOnce r.1) (contains p s.tracked_modules) (true, s)
        (with_info fnmatch files kmod o self m p (kmod.info m) (tracked_too p s)) (λ known. h)
        (λ new. info-Once m p (kmod.info m) (tracked_too p s) (track p s h) (print_new p s new h))

-- Whatever libkmod says of the modules and whatever the fuel, from a state in which no absolute path is
-- shown twice and all that are shown are tracked depinfo comes to such a state, with error or without.
pub depinfo-Once :
    (fnmatch : CString → CString → Bool) (files : Files) (kmod : Kmod) (o : Shows) (fuel m : ℕ)
    (s : State)
    → IsOnce s
    → IsOnce (depinfo fnmatch files kmod o fuel m s).1
unfolding depinfo
depinfo-Once fnmatch files kmod o zero m s h = record { kept = h.kept }
depinfo-Once fnmatch files kmod o (suc fuel) m s h =
    visit-Once fnmatch files kmod o (depinfo fnmatch files kmod o fuel)
      (depinfo-Once fnmatch files kmod o fuel) m (kmod.path m) s h
