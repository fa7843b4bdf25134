-- ===== src/Put/Linked.antt =====
-- The linked list in memory.
use make_initrd.Prelude.{
  ℕ, ◌≡◌, refl, sym, ap, ◌∙◌, Bool, true, false, not, ◌&&◌, Option, none, some, List, [], ◌∷◌, ◌++◌,
  arith, ◌==◌, if◌then◌else◌, all,
}
use mathlib.Core.Path.{subst}
use make_initrd.Put.Queue.{File, modify, set_next, set_prev, unlink, is_at}

-- From `start` on `next` leads through these addresses and then ends, and `prev` leads back.
unfoldable pub Linked : (ℕ → File) → Option ℕ → Option ℕ → List ℕ → Type 0
Linked at before start [] = start ≡ none
Linked at before start (a ∷ fs) =
    (start ≡ some a) × ((at a).prev ≡ before) × Linked at (some a) (at a).next fs

abbrev pub absent : ℕ → List ℕ → Bool
absent a fs = all (λ b. not (b == a)) fs

unfoldable pub distinct : List ℕ → Bool
distinct [] = true
distinct (a ∷ fs) = absent a fs && distinct fs

pub ==_refl : (a : ℕ) → (a == a) ≡ true
==_refl a = ground arith

is_eq_sym : (a b : ℕ) → (a == b) ≡ (b == a)
is_eq_sym a b = ground arith

-- A list does not see what is elsewhere, and no other fields.
pub Linked-frame :
    (at at' : ℕ → File) (before start : Option ℕ) (fs : List ℕ)
    → ((b : ℕ) → absent b fs ≡ false → ((at' b).prev ≡ (at b).prev) × ((at' b).next ≡ (at b).next))
    → Linked at before start fs
    → Linked at' before start fs
unfolding Linked
Linked-frame at at' before start [] same l = l
Linked-frame at at' before start (a ∷ fs) same (e, p, l) =
    let (back, on) = same a (ground arith) in
    (
      e,
      back ∙ p,
      rw on (Linked-frame at at' (some a) (at a).next fs (λ b h. same b (ground arith)) l),
    )

abbrev first : List ℕ → Option ℕ
first [] = none
first (a ∷ fs) = some a

abbrev last_of : Option ℕ → List ℕ → Option ℕ
last_of before [] = before
last_of before (a ∷ fs) = last_of (some a) fs

next_lem :
    (at : ℕ → File) (before start : Option ℕ) (xs : List ℕ) (a : ℕ) (ys : List ℕ)
    → Linked at before start (xs ++ a ∷ ys)
    → ((at a).next ≡ first ys) × ((at a).prev ≡ last_of before xs)
unfolding Linked
next_lem at before start [] a [] (e, p, l) = (l, p)
next_lem at before start [] a (y ∷ ys) (e, p, (n, _, _)) = (n, p)
next_lem at before start (x ∷ xs) a ys (e, p, l) = next_lem at (some x) (at x).next xs a ys l

next_set :
    (p n : Option ℕ) (at : ℕ → File) (b : ℕ)
    → (set_next p n at b).next ≡ (if is_at p b then n else (at b).next)
unfolding set_next modify
next_set none n at b = refl
next_set (some q) n at b = ground (arith, is_eq_sym b q)

pub next_kept : (p n : Option ℕ) (at : ℕ → File) (b : ℕ) → (set_prev p n at b).next ≡ (at b).next
unfolding set_prev modify
next_kept none n at b = refl
next_kept (some q) n at b = ground arith

pub prev_set :
    (n p : Option ℕ) (at : ℕ → File) (b : ℕ)
    → (set_prev n p at b).prev ≡ (if is_at n b then p else (at b).prev)
unfolding set_prev modify
prev_set none p at b = refl
prev_set (some q) p at b = ground (arith, is_eq_sym b q)

prev_kept : (p n : Option ℕ) (at : ℕ → File) (b : ℕ) → (set_next p n at b).prev ≡ (at b).prev
unfolding set_next modify
prev_kept none n at b = refl
prev_kept (some q) n at b = ground arith

unlink-next :
    (a : ℕ) (at : ℕ → File) (b : ℕ)
    → (unlink a at b).next ≡ (if is_at (at a).prev b then (at a).next else (at b).next)
unfolding unlink
unlink-next a at b = next_kept (at a).next (at a).prev _ b ∙ next_set (at a).prev (at a).next at b

unlink-prev :
    (a : ℕ) (at : ℕ → File) (b : ℕ)
    → (unlink a at b).prev ≡ (if is_at (at a).next b then (at a).prev else (at b).prev)
unfolding unlink
unlink-prev a at b =
    prev_set (at a).next (at a).prev _ b
    ∙ ap (λ p. if is_at (at a).next b then (at a).prev else p)
        (prev_kept (at a).prev (at a).next at b)

first-not : (x : ℕ) (ys : List ℕ) → absent x ys ≡ true → is_at (first ys) x ≡ false
first-not x [] h = refl
first-not x (y ∷ ys) h = ground arith

last-not :
    (x y : ℕ) (ys : List ℕ) → absent x (y ∷ ys) ≡ true → is_at (last_of (some y) ys) x ≡ false
last-not x y [] h = ground arith
last-not x y (z ∷ ys) h = last-not x z ys (ground arith)

absent-other : (x y : ℕ) (ys : List ℕ) → absent x ys ≡ true → absent y ys ≡ false → (x == y) ≡ false
absent-other x y [] h k = ground arith
absent-other x y (z ∷ ys) h k = ground (arith, absent-other x y ys)

absent-append : (x : ℕ) (xs ys : List ℕ) → absent x (xs ++ ys) ≡ (absent x xs && absent x ys)
absent-append x [] ys = refl
absent-append x (z ∷ xs) ys = ground (arith, absent-append x xs ys)

abbrev absent_at : Option ℕ → List ℕ → Bool
absent_at none ys = true
absent_at (some x) ys = absent x ys

absent_at-first :
    (before : Option ℕ) (y : ℕ) (ys : List ℕ)
    → absent_at before (y ∷ ys) ≡ true
    → (is_at before y ≡ false) × ((b : ℕ) → absent b ys ≡ false → is_at before b ≡ false)
absent_at-first none y ys h = (refl, λ b k. refl)
absent_at-first (some x) y ys h = (ground arith, λ b k. absent-other x b ys (ground arith) k)

pub starts :
    (at : ℕ → File) (before start : Option ℕ) (a : ℕ) (fs : List ℕ)
    → Linked at before start (a ∷ fs)
    → start ≡ some a
unfolding Linked
starts at before start a fs (e, p, l) = e

abbrev pub Owned : List ℕ → Type 0
Owned fs = distinct fs ≡ true

pub distinct-tail : (a : ℕ) (fs : List ℕ) → Owned (a ∷ fs) → (absent a fs ≡ true) × Owned fs
unfolding distinct
distinct-tail a fs h = ground arith

-- The addresses behind the one that is taken out.
unlink_head :
    (at : ℕ → File) (before start : Option ℕ) (a : ℕ) (ys : List ℕ)
    → distinct ys ≡ true
    → absent_at before ys ≡ true
    → Linked at before start (a ∷ ys)
    → Linked (unlink a at) before (at a).next ys
unfolding Linked
unlink_head at before start a [] d o (e, p, l) = l
unlink_head at before start a (y ∷ ys) d o (e, p, (n, q, l)) =
    let (not_y, not_ys) = absent_at-first before y ys o in
    let (own, _) = distinct-tail y ys d in
    (
      n,
      rw (unlink-prev a at y, n, ==_refl y) p,
      rw (unlink-next a at y, p, not_y)
          (Linked-frame at (unlink a at) (some y) (at y).next ys
            (λ b k. (
              rw (unlink-prev a at b, n, absent-other y b ys own k) refl,
              rw (unlink-next a at b, p, not_ys b k) refl,
            ))
            l),
    )

unlink_tail :
    (at : ℕ → File) (before start : Option ℕ) (x : ℕ) (xs : List ℕ) (a : ℕ) (ys : List ℕ)
    → Owned (x ∷ xs ++ a ∷ ys)
    → Linked at before start (x ∷ xs ++ a ∷ ys)
    → Linked (unlink a at) before start (x ∷ xs ++ ys)
unfolding Linked
unlink_tail at before start x [] a ys d (e, p, l) =
    let (x_own, d') = distinct-tail x (a ∷ ys) d in
    let (a_own, d'') = distinct-tail a ys d' in
    let (n, q) = next_lem at (some x) (at x).next [] a ys l in
    (
      e,
      rw (unlink-prev a at x, n, first-not x ys (ground arith)) p,
      rw (unlink-next a at x, q, ==_refl x)
          (unlink_head at (some x) (at x).next a ys d'' (ground arith) l),
    )
unlink_tail at before start x (z ∷ zs) a ys d (e, p, l) =
    let (x_own, d') = distinct-tail x (z ∷ zs ++ a ∷ ys) d in
    let (n, q) = next_lem at (some x) (at x).next (z ∷ zs) a ys l in
    let apart : (absent x (z ∷ zs) && absent x (a ∷ ys)) ≡ true =
      sym (absent-append x (z ∷ zs) (a ∷ ys)) ∙ x_own in
    (
      e,
      rw (unlink-prev a at x, n, first-not x ys (ground arith)) p,
      rw (unlink-next a at x, q, last-not x z zs (ground arith))
          (unlink_tail at (some x) (at x).next z zs a ys d' l),
    )

-- Taking a file out of the list leaves a list of the others, in their order.
pub unlink-Linked :
    (at : ℕ → File) (start : Option ℕ) (xs : List ℕ) (a : ℕ) (ys : List ℕ)
    → Owned (xs ++ a ∷ ys)
    → Linked at none start (xs ++ a ∷ ys)
    → Linked (unlink a at) none (if is_at start a then (at a).next else start) (xs ++ ys)
unlink-Linked at start [] a ys d l =
    let (_, d') = distinct-tail a ys d in
    let here : start ≡ some a = starts at none start _ _ l in
    rw (here, ==_refl a) (unlink_head at none start a ys d' refl l)
unlink-Linked at start (x ∷ xs) a ys d l =
    let (x_own, _) = distinct-tail x (xs ++ a ∷ ys) d in
    let here : start ≡ some x = starts at none start _ _ l in
    let apart : (absent x xs && absent x (a ∷ ys)) ≡ true =
      sym (absent-append x xs (a ∷ ys)) ∙ x_own in
    let other : (x == a) ≡ false = ground (arith, is_eq_sym x a) in
    let rest = unlink_tail at none start x xs a ys d l in
    subst (λ o. Linked (unlink a at) none o (x ∷ xs ++ ys)) (rw (here, other) refl) rest

-- A file in front.
pub push-Linked :
    (at at' : ℕ → File) (new : ℕ) (start : Option ℕ) (fs : List ℕ)
    → absent new fs ≡ true
    → ((at' new).prev ≡ none) × ((at' new).next ≡ start)
    → ((b : ℕ) → (b == new) ≡ false → (at' b).next ≡ (at b).next)
    → ((b : ℕ)
        → (b == new) ≡ false
        → (at' b).prev ≡ (if is_at start b then some new else (at b).prev))
    → Owned fs
    → Linked at none start fs
    → Linked at' none (some new) (new ∷ fs)
unfolding Linked
push-Linked at at' new start [] o (p, n) next prev d l = (refl, p, n ∙ l)
push-Linked at at' new start (a ∷ fs) o (p, n) next prev d (e, q, l) =
    let (own, _) = distinct-tail a fs d in
    let apart : (a == new) ≡ false = ground arith in
    (
      refl,
      p,
      (
        n ∙ e,
        rw (prev a apart, e, ==_refl a) refl,
        rw (next a apart) (
            Linked-frame at at' (some a) (at a).next fs
              (λ b k.
                let other : (b == new) ≡ false =
                  ground (arith, is_eq_sym b new, absent-other new b fs) in
                (rw (prev b other, e, absent-other a b fs own k) refl, next b other))
              l),
      ),
    )
