-- ===== src/Environ/Printed.antt =====
-- Reading back what was printed in quotes.
use make_initrd.Prelude.{
  ℕ, zero, suc, ◌≤◌, ◌<◌, ◌≡◌, refl, sym, ap, ◌∙◌, Bool, true, false, not, ◌&&◌, some, List, [],
  ◌∷◌, ◌++◌, map, arith, ◌==◌, length, length-append, all, any, CString, Bool-cases, inl, inr,
}
use mathlib.Core.List.{append_assoc, append-nil}
use make_initrd.Environ.Show.{split_name, is_special, escape, Style, show_pair, show_environ}
use make_initrd.Environ.Load.{
  is_named, variable, put, setenv, is_space, skip_spaces, read_value, Loaded, loaded, after_value,
  after_name, one_variable, load_loop, set_environ,
}

abbrev pub quoted : Style
quoted = record { prefix = []; quote = 34 ∷ []; shell = false }

abbrev pub starts_name : CString → Bool
starts_name [] = false
starts_name (c ∷ cs) = not (is_space c)

-- A name that is not empty, has no `=` and does not start with a space.
abbrev pub is_name : CString → Bool
is_name n = starts_name n && all (λ c. not (c == b'=')) n

abbrev pub Pair : Type 0
Pair = CString × CString

abbrev pub variables : List Pair → List CString
variables = map (λ p. variable p.0 p.1)

-- The names are names, and none of them occurs twice, or in `seen`.
unfoldable pub fresh : List CString → List Pair → Bool
fresh seen [] = true
fresh seen ((n, v) ∷ ps) =
    is_name n && (not (any (is_named n) seen) && fresh (seen ++ variable n v ∷ []) ps)

split-append :
    (n v : CString) → all (λ c. not (c == b'=')) n ≡ true → split_name (n ++ b'=' ∷ v) ≡ some (n, v)
unfolding split_name
split-append [] v h = refl
split-append (c ∷ cs) v h = ground (arith, split-append cs v)

value-escape : (v rest : CString) → read_value false (escape v ++ 34 ∷ rest) ≡ (v, 34 ∷ rest)
unfolding read_value escape
value-escape [] rest = refl
value-escape (c ∷ cs) rest = elim (Bool-cases (is_special c)) [
  | inl special ↦ rw special (ground (arith, value-escape cs rest))
  | inr ordinary ↦ rw ordinary (ground (arith, value-escape cs rest))
]

put-fresh :
    (n v : CString) (es : List CString)
    → any (is_named n) es ≡ false
    → put n v es ≡ es ++ variable n v ∷ []
unfolding put
put-fresh n v [] h = refl
put-fresh n v (e ∷ es) h = ground (arith, put-fresh n v es)

-- The text of one variable.
abbrev text : CString → CString → CString
text n v = n ++ (b'=' ∷ (34 ∷ (escape v ++ (34 ∷ 10 ∷ []))))

skip-text : (n s : CString) → starts_name n ≡ true → skip_spaces (n ++ s) ≡ n ++ s
unfolding skip_spaces
skip-text [] s h = cc
skip-text (c ∷ cs) s h = ground arith

after-text :
    (next : CString → List CString → Loaded) (n v : CString) (es : List CString) (rest : CString)
    → is_name n ≡ true
    → one_variable next es (n ++ (b'=' ∷ (34 ∷ (escape v ++ (34 ∷ rest)))))
      ≡ next rest (setenv n v es)
unfolding one_variable after_name after_value
after-text next [] v es rest h = cc
after-text next (c ∷ cs) v es rest h =
    rw (split-append (c ∷ cs) (34 ∷ (escape v ++ (34 ∷ rest))) (ground arith), value-escape v rest)
      refl

shown : List Pair → CString
shown [] = []
shown ((n, v) ∷ ps) = text n v ++ shown ps

name-fresh :
    (seen : List CString) (n v : CString) (ps : List Pair)
    → fresh seen ((n, v) ∷ ps) ≡ true
    → (is_name n ≡ true)
      × (any (is_named n) seen ≡ false)
      × (fresh (seen ++ variable n v ∷ []) ps ≡ true)
unfolding fresh
name-fresh seen n v ps h = ground arith

show-shown :
    (seen : List CString) (ps : List Pair)
    → fresh seen ps ≡ true
    → show_environ quoted (variables ps) ≡ some (shown ps)
unfolding show_environ show_pair shown
show-shown seen [] h = refl
show-shown seen ((n, v) ∷ ps) h =
    let (named, _, later) = name-fresh seen n v ps h in
    rw
      (
        show_environ,
        split-append n v (ground arith),
        show-shown (seen ++ variable n v ∷ []) ps later,
      )
      refl

text-append :
    (n v rest : CString) → text n v ++ rest ≡ n ++ (b'=' ∷ (34 ∷ (escape v ++ (34 ∷ 10 ∷ rest))))
text-append n v rest =
    append_assoc n (b'=' ∷ (34 ∷ (escape v ++ (34 ∷ 10 ∷ [])))) rest
    ∙ ap (λ s. n ++ (b'=' ∷ (34 ∷ s))) (append_assoc (escape v) (34 ∷ 10 ∷ []) rest)

setenv-fresh :
    (n v : CString) (es : List CString)
    → is_name n ≡ true
    → any (is_named n) es ≡ false
    → setenv n v es ≡ es ++ variable n v ∷ []
unfolding setenv
setenv-fresh [] v es h k = cc
setenv-fresh (c ∷ cs) v es h k = put-fresh (c ∷ cs) v es k

skip_newline :
    (fuel : ℕ) (s : CString) (es : List CString) → load_loop fuel (10 ∷ s) es ≡ load_loop fuel s es
unfolding load_loop skip_spaces
skip_newline zero s es = refl
skip_newline (suc fuel) s es = refl

load_text :
    (fuel : ℕ) (n v rest : CString) (es : List CString)
    → is_name n ≡ true
    → any (is_named n) es ≡ false
    → load_loop (suc fuel) (text n v ++ rest) es ≡ load_loop fuel rest (es ++ variable n v ∷ [])
unfolding load_loop
load_text fuel n v rest es h k =
    ap (λ s. one_variable (load_loop fuel) es (skip_spaces s)) (text-append n v rest)
    ∙ ap (one_variable (load_loop fuel) es) (skip-text n _ (ground arith))
    ∙ after-text (load_loop fuel) n v es (10 ∷ rest) h
    ∙ skip_newline fuel rest (setenv n v es)
    ∙ ap (load_loop fuel rest) (setenv-fresh n v es h k)

load-shown :
    (fuel : ℕ) (ps : List Pair) (es : List CString)
    → length ps < fuel
    → fresh es ps ≡ true
    → load_loop fuel (shown ps) es ≡ loaded (es ++ variables ps)
unfolding shown
load-shown zero ps es l h = absurd (omega arith)
load-shown (suc fuel) [] es l h =
    unfold load_loop skip_spaces one_variable in ap loaded (sym (append-nil es))
load-shown (suc fuel) ((n, v) ∷ ps) es l h =
    let (named, absent, later) = name-fresh es n v ps h in
    load_text fuel n v (shown ps) es named absent
    ∙ load-shown fuel ps (es ++ variable n v ∷ []) (omega arith) later
    ∙ ap loaded (append_assoc es (variable n v ∷ []) (variables ps))

length-shown : (ps : List Pair) → length ps ≤ length (shown ps)
unfolding shown
length-shown [] = omega arith
length-shown ((n, v) ∷ ps) = omega (
  arith,
  length-shown ps,
  length-append (text n v) (shown ps),
  length-append n (b'=' ∷ (34 ∷ (escape v ++ (34 ∷ 10 ∷ [])))),
)

-- An environment in which no name occurs twice, each is not empty and none starts with a space, is
-- printed with -q, and from what was printed -f makes the same environment out of an empty one, in
-- the same order and whatever characters the values have.
pub set_environ-show_environ :
    (ps : List Pair)
    → fresh [] ps ≡ true
    → (out : CString) × (show_environ quoted (variables ps) ≡ some out)
      × (set_environ out [] ≡ loaded (variables ps))
unfolding set_environ
set_environ-show_environ ps h = (
  shown ps,
  show-shown [] ps h,
  load-shown (suc (length (shown ps))) ps [] (omega (arith, length-shown ps)) h,
)
