-- ===== src/Tests/Variables.antt =====
-- The theorems on the environment, the first at two variables, one with all the characters that are
-- escaped.
use make_initrd.Prelude.{◌≡◌, refl, true, some, List, [], ◌∷◌, CString, codes, str_eq, map}
use make_initrd.Environ.Show.{show_environ}
use make_initrd.Environ.Load.{is_named, loaded, set_environ}
use make_initrd.Environ.Unset.{mark_of, try_patterns}
use make_initrd.Environ.Matched.{judge_all, try_patterns_lem}
use make_initrd.Environ.Printed.{Pair, quoted, variables, fresh, set_environ-show_environ}

abbrev two_variables : List Pair
two_variables = (codes "A", 36 ∷ 96 ∷ 34 ∷ 92 ∷ 10 ∷ b'=' ∷ []) ∷ (codes "B_1", []) ∷ []

two_variables-fresh : fresh [] two_variables ≡ true
unfolding fresh is_named str_eq
two_variables-fresh = refl

set_environ-show_environ_example :
    (out : CString) × (show_environ quoted (variables two_variables) ≡ some out)
    × (set_environ out [] ≡ loaded (variables two_variables))
set_environ-show_environ_example = set_environ-show_environ two_variables two_variables-fresh

-- Both patterns fit the first variable, and the last entry has no name.
try_patterns_lem_example :
    try_patterns str_eq
      (codes "A" ∷ codes "A" ∷ [])
      (codes "A=1" ∷ codes "B=2" ∷ codes "C" ∷ [])
      (map mark_of (codes "A=1" ∷ codes "B=2" ∷ codes "C" ∷ []))
    ≡ judge_all str_eq
        (codes "A" ∷ codes "A" ∷ [])
        (codes "A=1" ∷ codes "B=2" ∷ codes "C" ∷ [])
        (map mark_of (codes "A=1" ∷ codes "B=2" ∷ codes "C" ∷ []))
try_patterns_lem_example =
    try_patterns_lem str_eq (codes "A" ∷ codes "A" ∷ [])
      (codes "A=1" ∷ codes "B=2" ∷ codes "C" ∷ [])
