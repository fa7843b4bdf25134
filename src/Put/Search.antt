-- ===== src/Put/Search.antt =====
-- What `tfind` gives after `tsearch` and `tdelete`.
use make_initrd.Prelude.{
  ℕ, ◌≡◌, refl, sym, ap, ◌∙◌, Bool, true, false, not, ◌&&◌, Option, none, some, List, [], ◌∷◌, ◌++◌,
  arith, if◌then◌else◌, all, ◌==◌, CString, str_eq, str_eq_iff, Bool-cases, inl, inr,
}
use make_initrd.Put.Queue.{File, tfind, insert, tdelete, str_lt}

pub str_eq_sym : (a b : CString) → str_eq a b ≡ str_eq b a
str_eq_sym a b = elim (Bool-cases (str_eq a b)) [
  | inl same ↦ same ∙ sym ((str_eq_iff b a).1 (sym ((str_eq_iff a b).0 same)))
  | inr other ↦ elim (Bool-cases (str_eq b a)) [
    | inl same ↦ (str_eq_iff a b).1 (sym ((str_eq_iff b a).0 same)) ∙ sym same
    | inr both ↦ other ∙ sym both
  ]
]

str_eq_same : (a b c : CString) → str_eq a b ≡ true → str_eq a c ≡ str_eq b c
str_eq_same a b c h = let e : a ≡ b = (str_eq_iff a b).0 h in ap (λ x. str_eq x c) e

pub tfind-insert :
    (p k : CString) (a : ℕ) (t : List (CString × ℕ))
    → tfind k t ≡ none
    → tfind p (insert k a t) ≡ (if str_eq k p then some a else tfind p t)
unfolding tfind insert
tfind-insert p k a [] h = refl
tfind-insert p k a ((q, b) ∷ t) h = elim (Bool-cases (str_eq q k)) [
  | inl same ↦ absurd (ground arith)
  | inr other ↦
      let ih = tfind-insert p k a t (ground arith) in
      elim (Bool-cases (str_lt k q)) [
        | inl less ↦ rw less refl
        | inr more ↦ rw more (ground (arith, ih, str_eq_same q p k, str_eq_sym p k))
      ]
]

pub tfind-tdelete :
    (p k : CString) (t : List (CString × ℕ))
    → tfind p (tdelete k t) ≡ (if str_eq k p then none else tfind p t)
unfolding tfind tdelete
tfind-tdelete p k [] = ground arith
tfind-tdelete p k ((q, b) ∷ t) = elim (Bool-cases (str_eq q k)) [
  | inl same ↦ ground (arith, tfind-tdelete p k t, str_eq_same q k p)
  | inr other ↦ ground (arith, tfind-tdelete p k t, str_eq_same q p k, str_eq_sym p k)
]

-- The first of the addresses at which a file has that path.
unfoldable pub find_src : (ℕ → File) → CString → List ℕ → Option ℕ
find_src at p [] = none
find_src at p (a ∷ fs) = if str_eq (at a).src p then some a else find_src at p fs

abbrev pub is_new : (ℕ → File) → CString → List ℕ → Bool
is_new at p fs = all (λ a. not (str_eq (at a).src p)) fs

-- No two files have the same path.
unfoldable pub unique : (ℕ → File) → List ℕ → Bool
unique at [] = true
unique at (a ∷ fs) = is_new at (at a).src fs && unique at fs

pub find_src-frame :
    (at at' : ℕ → File) (p : CString) (fs : List ℕ)
    → ((b : ℕ) → all (λ c. not (c == b)) fs ≡ false → (at' b).src ≡ (at b).src)
    → (find_src at' p fs ≡ find_src at p fs) × (is_new at' p fs ≡ is_new at p fs)
unfolding find_src
find_src-frame at at' p [] same = (refl, refl)
find_src-frame at at' p (a ∷ fs) same =
    let here : (at' a).src ≡ (at a).src = same a (ground arith) in
    let (f, n) = find_src-frame at at' p fs (λ b h. same b (ground arith)) in
    (rw (here, f) refl, rw (here, n) refl)

pub unique-frame :
    (at at' : ℕ → File) (fs : List ℕ)
    → ((b : ℕ) → all (λ c. not (c == b)) fs ≡ false → (at' b).src ≡ (at b).src)
    → unique at' fs ≡ unique at fs
unfolding unique
unique-frame at at' [] same = refl
unique-frame at at' (a ∷ fs) same =
    let here : (at' a).src ≡ (at a).src = same a (ground arith) in
    rw
      (
        here,
        (find_src-frame at at' (at a).src fs (λ b h. same b (ground arith))).1,
        unique-frame at at' fs (λ b h. same b (ground arith)),
      )
      refl

pub none-is_new :
    (at : ℕ → File) (p : CString) (fs : List ℕ) → find_src at p fs ≡ none → is_new at p fs ≡ true
unfolding find_src
none-is_new at p [] h = refl
none-is_new at p (a ∷ fs) h = ground (arith, none-is_new at p fs)

find_src-new :
    (at : ℕ → File) (p : CString) (fs : List ℕ) → is_new at p fs ≡ true → find_src at p fs ≡ none
unfolding find_src
find_src-new at p [] h = refl
find_src-new at p (a ∷ fs) h = ground (arith, find_src-new at p fs)

new_middle :
    (at : ℕ → File) (p : CString) (xs : List ℕ) (a : ℕ) (ys : List ℕ)
    → is_new at p (xs ++ a ∷ ys) ≡ true
    → (str_eq (at a).src p ≡ false) × (is_new at p (xs ++ ys) ≡ true)
new_middle at p [] a ys h = (ground arith, ground arith)
new_middle at p (x ∷ xs) a ys h =
    let (n, r) = new_middle at p xs a ys (ground arith) in (n, ground arith)

pub unique-middle :
    (at : ℕ → File) (xs : List ℕ) (a : ℕ) (ys : List ℕ)
    → unique at (xs ++ a ∷ ys) ≡ true
    → (is_new at (at a).src (xs ++ ys) ≡ true) × (unique at (xs ++ ys) ≡ true)
unfolding unique
unique-middle at [] a ys h = ground arith
unique-middle at (x ∷ xs) a ys h =
    let (n, u) = unique-middle at xs a ys (ground arith) in
    let (here, rest) = new_middle at (at x).src xs a ys (ground arith) in
    (ground (arith, str_eq_sym (at x).src (at a).src), ground arith)

-- The look-up without one file.
pub find_src-middle :
    (at : ℕ → File) (p : CString) (xs : List ℕ) (a : ℕ) (ys : List ℕ)
    → is_new at (at a).src (xs ++ ys) ≡ true
    → find_src at p (xs ++ ys)
      ≡ (if str_eq (at a).src p then none else find_src at p (xs ++ a ∷ ys))
unfolding find_src
find_src-middle at p [] a ys h = elim (Bool-cases (str_eq (at a).src p)) [
  | inl same ↦ rw same (find_src-new at p ys (rw (sym ((str_eq_iff (at a).src p).0 same)) h))
  | inr other ↦ rw other refl
]
find_src-middle at p (x ∷ xs) a ys h = ground (
  arith,
  find_src-middle at p xs a ys,
  str_eq_same (at a).src p (at x).src,
  str_eq_sym (at a).src (at x).src,
  str_eq_sym p (at x).src,
)
