-- ===== src/Environ/Load.antt =====
-- features/runtime/src/environ/environ.c: `set_environ`. The file is the string of its bytes before
-- the first zero; that a zero follows the last byte is up to the mapping. `setenv` is that of the C
-- library: it replaces a variable in its place or adds it at the end, and refuses an empty name.
use make_initrd.Prelude.{
  ℕ, zero, suc, Bool, true, false, ◌&&◌, ◌||◌, Option, none, some, List, [], ◌∷◌, ◌++◌, ◌==◌, leb,
  if◌then◌else◌, length, CString, str_eq,
}
use make_initrd.Environ.Show.{split_name}

-- The variable has that name.
unfoldable pub is_named : CString → CString → Bool
unfolding split_name
is_named name e = elim (split_name e) [ none ↦ false | some (n, v) ↦ str_eq n name ]

abbrev pub variable : CString → CString → CString
variable name value = name ++ b'=' ∷ value

unfoldable pub put : CString → CString → List CString → List CString
unfolding is_named
put name value [] = variable name value ∷ []
put name value (e ∷ es) =
    if is_named name e then variable name value ∷ es else e ∷ put name value es

unfoldable pub setenv : CString → CString → List CString → List CString
unfolding put
setenv [] value es = es
setenv (c ∷ cs) value es = put (c ∷ cs) value es

abbrev pub is_space : ℕ → Bool
is_space c = c == 32 || (leb 9 c && leb c 13)

unfoldable pub skip_spaces : CString → CString
skip_spaces [] = []
skip_spaces (c ∷ cs) = if is_space c then skip_spaces cs else c ∷ cs

-- The value up to a quote that no backslash stands before, and the text from that quote on; the flag
-- is `is_quote`.
unfoldable pub read_value : Bool → CString → CString × CString
read_value is_quote [] = ([], [])
read_value true (c ∷ cs) = let (v, rest) = read_value false cs in (c ∷ v, rest)
read_value false (c ∷ cs) =
    let (v, rest) = read_value false cs in
    let quoted = read_value true cs in
    if c == 34 then ([], c ∷ cs) else if c == 92 then quoted else (c ∷ v, rest)

-- The environment, a message with which the program dies, or rounds that do not suffice.
pub data Loaded : Type 0 where
  loaded : List CString → Loaded
  fatal : Loaded
  unfinished : Loaded

-- `a` is what follows the opening quote.
unfoldable pub after_value :
    (CString → List CString → Loaded) → CString → List CString → CString × CString → Loaded
after_value next name es (value, []) = fatal
after_value next name es (value, q ∷ a) = next a (setenv name value es)

unfoldable pub after_name :
    (CString → List CString → Loaded) → List CString → Option (CString × CString) → Loaded
unfolding read_value after_value
after_name next es none = fatal
after_name next es (some (name, [])) = fatal
after_name next es (some (name, c ∷ a)) =
    if c == 34 then after_value next name es (read_value false a) else fatal

unfoldable pub one_variable : (CString → List CString → Loaded) → List CString → CString → Loaded
unfolding after_name
one_variable next es [] = loaded es
one_variable next es (c ∷ a) = after_name next es (split_name (c ∷ a))

unfoldable pub load_loop : ℕ → CString → List CString → Loaded
unfolding one_variable skip_spaces
load_loop zero a es = unfinished
load_loop (suc fuel) a es = one_variable (load_loop fuel) es (skip_spaces a)

-- Each round takes at least one character, and one round sees the end.
unfoldable pub set_environ : CString → List CString → Loaded
unfolding load_loop
set_environ file es = load_loop (suc (length file)) file es
