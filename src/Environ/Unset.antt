-- ===== src/Environ/Unset.antt =====
-- features/runtime/src/environ/environ.c: `unset_environ`. `fnmatch` is a parameter. `unsetenv` takes
-- every variable of the name out of the array that is walked and moves those behind it down; a place
-- behind the shorter array is read as null.
use make_initrd.Prelude.{
  ℕ, zero, suc, Bool, Option, none, some, List, [], ◌∷◌, ◌==◌, if◌then◌else◌, length, take, map,
  CString,
}
use make_initrd.Environ.Show.{split_name}
use make_initrd.Environ.Load.{is_named}

-- An element of `envname`: 0, the length of a name, or its negative.
pub data Mark : Type 0 where
  no_name : Mark
  plain hit : ℕ → Mark

unfoldable pub mark_of : CString → Mark
unfolding split_name
mark_of e = elim (split_name e) [
  | none ↦ no_name
  | some (name, value) ↦ elim name [ [] ↦ no_name | c ∷ cs ↦ plain (length (c ∷ cs)) ]
]

-- The patterns between commas.
unfoldable pub split_patterns : CString → List CString
split_patterns [] = [] ∷ []
split_patterns (c ∷ cs) =
    let rest = split_patterns cs in
    if c == b',' then [] ∷ rest else elim rest [ [] ↦ (c ∷ []) ∷ [] | p ∷ ps ↦ (c ∷ p) ∷ ps ]

-- Whether unsetenv is called with the name, by `invert_match`.
unfoldable pub chosen : Bool → Mark → Option ℕ
chosen invert no_name = none
chosen invert (plain j) = if invert then some j else none
chosen invert (hit j) = if invert then none else some j

unfoldable pub unsetenv : CString → List CString → List CString
unfolding is_named
unsetenv name [] = []
unsetenv name (e ∷ es) = let rest = unsetenv name es in if is_named name e then rest else e ∷ rest

unfoldable pub entry : ℕ → List CString → Option CString
entry i [] = none
entry zero (e ∷ es) = some e
entry (suc i) (e ∷ es) = entry i es

unfoldable pub mark_at : ℕ → List Mark → Mark
mark_at i [] = no_name
mark_at zero (m ∷ ms) = m
mark_at (suc i) (m ∷ ms) = mark_at i ms

unfoldable pub unset_chosen : Option ℕ → Option CString → List CString → List CString
unfolding unsetenv
unset_chosen none e es = es
unset_chosen (some j) none es = es
unset_chosen (some j) (some e) es = unsetenv (take j e) es

-- From the last index to the first.
unfoldable pub unset_loop : Bool → List Mark → ℕ → List CString → List CString
unfolding unset_chosen chosen mark_at entry
unset_loop invert marks zero es = es
unset_loop invert marks (suc i) es =
    unset_loop invert marks i (unset_chosen (chosen invert (mark_at i marks)) (entry i es) es)

module _ (fnmatch : CString → CString → Bool) where
  unfoldable pub try_pattern : CString → CString → Mark → Mark
  try_pattern p e no_name = no_name
  try_pattern p e (hit j) = hit j
  try_pattern p e (plain j) = if fnmatch p (take j e) then hit j else plain j

  unfoldable pub try_entries : CString → List CString → List Mark → List Mark
  unfolding try_pattern
  try_entries p [] ms = []
  try_entries p (e ∷ es) [] = []
  try_entries p (e ∷ es) (m ∷ ms) = try_pattern p e m ∷ try_entries p es ms

  unfoldable pub try_patterns : List CString → List CString → List Mark → List Mark
  unfolding try_entries
  try_patterns [] es ms = ms
  try_patterns (p ∷ ps) es ms = try_patterns ps es (try_entries p es ms)

  unfoldable pub unset_environ : CString → Bool → List CString → List CString
  unfolding unset_loop try_patterns split_patterns mark_of
  unset_environ patterns invert es =
      unset_loop invert (try_patterns (split_patterns patterns) es (map mark_of es)) (length es) es
