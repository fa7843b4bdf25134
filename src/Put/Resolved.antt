-- ===== src/Put/Resolved.antt =====
-- The resolution of a path ends.
use make_initrd.Prelude.{
  ◌==◌, ℕ, zero, suc, ◌+◌, ◌-◌, ◌*◌, ◌≤◌, ◌<◌, ◌≡◌, true, false, List, [], ◌∷◌, ◌++◌, arith, ltb,
  leb, if◌then◌else◌, length, length-append, CString, codes, str_eq, if_both, if_cases,
}
use mathlib.Core.List.{reverse}
use make_initrd.Put.Queue.{path_max}
use make_initrd.Put.Path.{
  Readlink, target, einval, broken, Links, suffix_requires_dir_check, skip_slashes, component, back,
  with_slash, Canon, canonical, fails, unfinished, max_symlinks, buffer_size, follow, at_answer,
  enter, at_component, canon_loop, canonicalize,
}

-- The rounds suffice.
abbrev pub Comes : Canon → Type 0
Comes (canonical path links) = Unit
Comes fails = Unit
Comes unfinished = ⊥

length-skip : (s : CString) → length (skip_slashes s) ≤ length s
unfolding skip_slashes
length-skip [] = omega arith
length-skip (c ∷ cs) = ground (arith, length-skip cs)

length-component : (s : CString) → length (component s).0 + length (component s).1 ≡ length s
unfolding component
length-component [] = omega arith
length-component (c ∷ cs) = ground (arith, length-component cs)

module _ (fs : Links) where
  -- The rounds that are left for a rest of that length and that many links.
  abbrev Enough : ℕ → CString → ℕ → Type 0
  Enough fuel rest n = (n ≤ max_symlinks) × ((max_symlinks - n) * path_max + length rest < fuel)

  abbrev Loop : ℕ → Type 0
  Loop fuel =
      (r rest : CString) (n : ℕ) (links : List CString)
      → Enough fuel rest n
      → Comes (canon_loop fs fuel r rest n links)

  follow-Comes :
      (fuel : ℕ) (r end : CString) (n : ℕ) (links : List CString) (t : CString)
      → Loop fuel
      → Enough fuel end n
      → Comes (follow fs (canon_loop fs fuel) r end n links t)
  unfolding follow
  follow-Comes fuel r end n links t ih (b, e) =
      if_cases Comes (ltb max_symlinks (suc n)) _ _ (λ many. tt)
        (λ few.
          if_cases Comes (leb (suc path_max) (length end + length t)) _ _ (λ long. tt)
            (λ short.
              ih _ (t ++ end) (suc n) _ (ground arith, ground (arith, length-append t end))))

  answer-Comes :
      (fuel : ℕ) (r end : CString) (n : ℕ) (links : List CString) (a : Readlink)
      → Loop fuel
      → Enough fuel end n
      → Comes (at_answer fs (canon_loop fs fuel) r end n links a)
  unfolding at_answer
  answer-Comes fuel r end n links (target t) ih e = follow-Comes fuel r end n links t ih e
  answer-Comes fuel r end n links einval ih e =
      if_both Comes (if suffix_requires_dir_check end then fs.is_dir (reverse r) else true) _ _
        (ih r end n links e) tt
  answer-Comes fuel r end n links broken ih e =
      if_both Comes (if suffix_requires_dir_check end then fs.is_dir (reverse r) else false) _ _
        (ih r end n links e) tt

  component-Comes :
      (fuel : ℕ) (r start end : CString) (n : ℕ) (links : List CString)
      → Loop fuel
      → n ≤ max_symlinks
      → (max_symlinks - n) * path_max + (length start + length end) < suc fuel
      → Comes (at_component fs (canon_loop fs fuel) r (start, end) n links)
  unfolding at_component enter
  component-Comes fuel r [] end n links ih b e = tt
  component-Comes fuel r (c ∷ cs) end n links ih b e =
      let rest : Enough fuel end n = (b, omega arith) in
      if_both Comes (str_eq (c ∷ cs) (codes ".")) _ _ (ih r end n links rest) (
        if_both Comes (str_eq (c ∷ cs) (codes "..")) _ _ (ih (back r) end n links rest) (
          if_both Comes (ltb (buffer_size - length (with_slash r)) (length (c ∷ cs) + 4)) _ _ tt
            (answer-Comes fuel (reverse (c ∷ cs) ++ with_slash r) end n links _ ih rest)))

  rounds-Comes : (fuel : ℕ) → Loop fuel
  unfolding canon_loop
  rounds-Comes zero r rest n links (b, e) = absurd (omega arith)
  rounds-Comes (suc fuel) r rest n links (b, e) =
      component-Comes fuel r (component (skip_slashes rest)).0 (component (skip_slashes rest)).1 n
        links (rounds-Comes fuel) b
        (omega (arith, length-skip rest, length-component (skip_slashes rest)))

-- Whatever readlink and stat answer, the loop over the components of a path ends, also where symbolic
-- links lead around in a circle: with a path, or with an exit.
pub canonicalize-Comes : (fs : Links) (cwd name : CString) → Comes (canonicalize fs cwd name)
unfolding canonicalize
canonicalize-Comes fs cwd [] = tt
canonicalize-Comes fs cwd (c ∷ cs) =
    rounds-Comes fs (suc (max_symlinks * path_max + length (c ∷ cs)))
      (if c == b'/' then b'/' ∷ [] else reverse cwd) (c ∷ cs) 0 [] (omega arith, omega arith)
