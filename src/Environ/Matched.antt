-- ===== src/Environ/Matched.antt =====
-- Which variables the patterns choose.
use make_initrd.Prelude.{
  ◌≡◌, refl, sym, ap, ◌∙◌, Bool, List, [], ◌∷◌, if◌then◌else◌, any, take, map, CString, Bool-cases,
  inl, inr,
}
use mathlib.Core.Path.{ap₂}
use make_initrd.Environ.Unset.{
  Mark, no_name, plain, hit, mark_of, try_pattern, try_entries, try_patterns,
}

module _ (fnmatch : CString → CString → Bool) where
  -- A name is hit where some pattern fits it.
  pub judge : List CString → CString → Mark → Mark
  judge ps e no_name = no_name
  judge ps e (hit j) = hit j
  judge ps e (plain j) = if any (λ p. fnmatch p (take j e)) ps then hit j else plain j

  pub judge_all : List CString → List CString → List Mark → List Mark
  judge_all ps [] ms = []
  judge_all ps (e ∷ es) [] = []
  judge_all ps (e ∷ es) (m ∷ ms) = judge ps e m ∷ judge_all ps es ms

  judge_step :
      (p : CString) (ps : List CString) (e : CString) (m : Mark)
      → judge ps e (try_pattern fnmatch p e m) ≡ judge (p ∷ ps) e m
  unfolding judge try_pattern
  judge_step p ps e no_name = refl
  judge_step p ps e (hit j) = refl
  judge_step p ps e (plain j) = elim (Bool-cases (fnmatch p (take j e))) [
    | inl fits ↦ rw fits refl
    | inr other ↦ rw other refl
  ]

  entries_step :
      (p : CString) (ps es : List CString) (ms : List Mark)
      → judge_all ps es (try_entries fnmatch p es ms) ≡ judge_all (p ∷ ps) es ms
  unfolding judge_all try_entries
  entries_step p ps [] ms = refl
  entries_step p ps (e ∷ es) [] = refl
  entries_step p ps (e ∷ es) (m ∷ ms) =
      ap₂ (λ x xs. x ∷ xs) (judge_step p ps e m) (entries_step p ps es ms)

  judge_none : (e : CString) (m : Mark) → judge [] e m ≡ m
  unfolding judge
  judge_none e no_name = refl
  judge_none e (plain j) = refl
  judge_none e (hit j) = refl

  none_all : (f : CString → Mark) (es : List CString) → judge_all [] es (map f es) ≡ map f es
  unfolding judge_all
  none_all f [] = refl
  none_all f (e ∷ es) = ap₂ (λ x xs. x ∷ xs) (judge_none e (f e)) (none_all f es)

  -- The marks after a pattern belong to the variables one by one.
  entries-map :
      (p : CString) (f : CString → Mark) (es : List CString)
      → try_entries fnmatch p es (map f es) ≡ map (λ e. try_pattern fnmatch p e (f e)) es
  unfolding try_entries
  entries-map p f [] = refl
  entries-map p f (e ∷ es) = ap (λ xs. try_pattern fnmatch p e (f e) ∷ xs) (entries-map p f es)

  patterns_lem :
      (ps es : List CString) (f : CString → Mark)
      → try_patterns fnmatch ps es (map f es) ≡ judge_all ps es (map f es)
  unfolding try_patterns
  patterns_lem [] es f = sym (none_all f es)
  patterns_lem (p ∷ ps) es f =
      ap (try_patterns fnmatch ps es) (entries-map p f es)
      ∙ patterns_lem ps es (λ e. try_pattern fnmatch p e (f e))
      ∙ ap (judge_all ps es) (sym (entries-map p f es))
      ∙ entries_step p ps es (map f es)

-- After the loop over the patterns a variable is marked exactly if some pattern fits its name; the order
-- of the patterns and those that fit more than once make no difference.
pub try_patterns_lem :
    (fnmatch : CString → CString → Bool) (ps es : List CString)
    → try_patterns fnmatch ps es (map mark_of es) ≡ judge_all fnmatch ps es (map mark_of es)
try_patterns_lem fnmatch ps es = patterns_lem fnmatch ps es mark_of
