-- ===== src/Environ/Show.antt =====
-- features/runtime/src/environ/environ.c: `show_environ`. A variable is the string `NAME=value`.
use make_initrd.Prelude.{
  ℕ, Bool, false, not, ◌&&◌, ◌||◌, Option, none, some, List, [], ◌∷◌, ◌++◌, ◌==◌, leb,
  if◌then◌else◌, all, CString,
}

-- The name before the first `=`, and the value behind it; none where there is no `=`, and the search
-- runs on behind the string.
unfoldable pub split_name : CString → Option (CString × CString)
split_name [] = none
split_name (c ∷ cs) =
    let more : Option (CString × CString) = elim (split_name cs) [
      | none ↦ none
      | some (name, value) ↦ some (c ∷ name, value)
    ] in
    if c == b'=' then some ([], cs) else more

-- isalnum in the C locale.
abbrev pub is_alnum : ℕ → Bool
is_alnum c =
    (leb b'0' c && leb c b'9') || ((leb b'A' c && leb c b'Z') || (leb b'a' c && leb c b'z'))

abbrev pub is_shell_name : CString → Bool
is_shell_name name = all (λ c. c == b'_' || is_alnum c) name

-- The characters that strpbrk looks for.
abbrev pub is_special : ℕ → Bool
is_special c = c == b'$' || (c == 96 || (c == 34 || c == 92))

-- A backslash before each of them.
unfoldable pub escape : CString → CString
escape [] = []
escape (c ∷ cs) = if is_special c then 92 ∷ c ∷ escape cs else c ∷ escape cs

pub record Style : Type 0 where
  pub prefix : CString
  pub quote : CString
  pub shell : Bool

abbrev pub plain : Style
plain = record { prefix = []; quote = []; shell = false }

unfoldable pub show_value : CString → CString → CString
unfolding escape
show_value [] value = value
show_value (q ∷ qs) value = escape value

unfoldable pub show_pair : Style → CString × CString → CString
unfolding show_value
show_pair s (name, value) =
    if s.shell && not (is_shell_name name)
    then []
    else s.prefix
      ++ (name ++ (b'=' ∷ (s.quote ++ (show_value s.quote value ++ (s.quote ++ 10 ∷ [])))))

-- What is printed, or none at a string without `=`.
unfoldable pub show_environ : Style → List CString → Option CString
unfolding show_pair
show_environ s [] = some []
show_environ s (e ∷ es) = elim (split_name e) [
  | none ↦ none
  | some pair ↦ elim (show_environ s es) [
    | none ↦ none
    | some rest ↦ some (show_pair s pair ++ rest)
  ]
]
