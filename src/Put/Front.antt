-- ===== src/Put/Front.antt =====
-- The store that keeps a queue of files, and the file that comes to its front.
use make_initrd.Prelude.{
  ℕ, suc, ◌≡◌, refl, sym, ap, ◌∙◌, true, false, Option, none, some, List, [], ◌∷◌, map, arith, ◌==◌,
  ltb, if◌then◌else◌, length, all, CString, str_eq,
}
use mathlib.Core.Path.{ap₂}
use make_initrd.Put.Queue.{
  File, Store, modify, tfind, insert, new_file, set_next, set_prev, has_prev,
}
use make_initrd.Put.Linked.{
  Linked, absent, distinct, Owned, push-Linked, ==_refl, prev_set, next_kept,
}
use make_initrd.Put.Search.{
  tfind-insert, find_src, unique, find_src-frame, unique-frame, none-is_new,
}

-- The store keeps exactly these files in its queue, in this order: the list in memory has them, their
-- paths differ, the search tree has them and nothing else, and the counter counts them.
pub record Keeps (s : Store) (fs : List ℕ) : Type 0 where
  pub linked : Linked s.at none s.inqueue fs
  pub own : Owned fs
  pub below : all (λ a. ltb a s.used) fs ≡ true
  pub number : s.queue_nr ≡ length fs
  pub found : (p : CString) → tfind p s.queued_files ≡ find_src s.at p fs
  pub paths : unique s.at fs ≡ true

-- The queue as the list of the paths that wait.
abbrev pub waiting : Store → List ℕ → List CString
waiting s fs = map (λ a. (s.at a).src) fs

pub waiting-frame :
    (at at' : ℕ → File) (fs : List ℕ)
    → ((b : ℕ) → absent b fs ≡ false → (at' b).src ≡ (at b).src)
    → map (λ a. (at' a).src) fs ≡ map (λ a. (at a).src) fs
waiting-frame at at' [] same = refl
waiting-frame at at' (a ∷ fs) same =
    let here : (at' a).src ≡ (at a).src = same a (ground arith) in
    rw (here, waiting-frame at at' fs (λ b h. same b (ground arith))) refl

below-suc :
    (n : ℕ) (fs : List ℕ) → all (λ a. ltb a n) fs ≡ true → all (λ a. ltb a (suc n)) fs ≡ true
below-suc n [] h = refl
below-suc n (a ∷ fs) h = ground (arith, below-suc n fs)

below-absent : (n : ℕ) (fs : List ℕ) → all (λ a. ltb a n) fs ≡ true → absent n fs ≡ true
below-absent n [] h = refl
below-absent n (a ∷ fs) h = ground (arith, below-absent n fs)

pub next-src : (p n : Option ℕ) (at : ℕ → File) (b : ℕ) → (set_next p n at b).src ≡ (at b).src
unfolding set_next modify
next-src none n at b = refl
next-src (some q) n at b = ground arith

pub prev-src : (n p : Option ℕ) (at : ℕ → File) (b : ℕ) → (set_prev n p at b).src ≡ (at b).src
unfolding set_prev modify
prev-src none p at b = refl
prev-src (some q) p at b = ground arith

member-apart : (n b : ℕ) (fs : List ℕ) → absent n fs ≡ true → absent b fs ≡ false → (b == n) ≡ false
member-apart n b [] h k = ground arith
member-apart n b (a ∷ fs) h k = ground (arith, member-apart n b fs)

-- What is in the store when a file has come to the front.
abbrev pub front : CString → Store → Store
front src s = record s {
  at =
      modify s.used (λ f. record (new_file src) { next = s.inqueue })
        (set_prev s.inqueue (some s.used) s.at);
  used = suc s.used;
  inqueue = some s.used;
  queue_nr = suc s.queue_nr;
  queued_files = insert src s.used s.queued_files;
}

pub front-new :
    (src : CString) (s : Store)
    → (front src s).at s.used ≡ record (new_file src) { next = s.inqueue }
unfolding modify
front-new src s = rw (==_refl s.used) refl

front-old :
    (src : CString) (s : Store) (b : ℕ)
    → (b == s.used) ≡ false
    → (front src s).at b ≡ set_prev s.inqueue (some s.used) s.at b
unfolding modify
front-old src s b h = rw h refl

front-src :
    (src : CString) (s : Store) (fs : List ℕ)
    → absent s.used fs ≡ true
    → (b : ℕ) → absent b fs ≡ false
    → ((front src s).at b).src ≡ (s.at b).src
front-src src s fs h b k =
    ap (λ f. f.src) (front-old src s b (member-apart s.used b fs h k))
    ∙ prev-src s.inqueue (some s.used) s.at b

pub no_prev :
    (at : ℕ → File) (start : Option ℕ) (fs : List ℕ)
    → Linked at none start fs
    → has_prev start at ≡ false
unfolding Linked
no_prev at start [] l = rw l refl
no_prev at start (a ∷ fs) (e, p, l) = rw (e, p) refl

found_front :
    (src : CString) (s : Store) (fs : List ℕ) (p : CString)
    → Keeps s fs
    → ((b : ℕ) → absent b fs ≡ false → ((front src s).at b).src ≡ (s.at b).src)
    → (if str_eq src p then some s.used else tfind p s.queued_files)
      ≡ find_src (front src s).at p (s.used ∷ fs)
unfolding find_src
found_front src s fs p k same =
    rw
      (
        ap (λ f. f.src) (front-new src s),
        (find_src-frame s.at (front src s).at p fs same).0,
        k.found p,
      )
      refl

paths_front :
    (src : CString) (s : Store) (fs : List ℕ)
    → Keeps s fs
    → tfind src s.queued_files ≡ none
    → ((b : ℕ) → absent b fs ≡ false → ((front src s).at b).src ≡ (s.at b).src)
    → unique (front src s).at (s.used ∷ fs) ≡ true
unfolding unique
paths_front src s fs k h same =
    let not_there = none-is_new s.at src fs (sym (k.found src) ∙ h) in
    let at' = (front src s).at in
    rw
      (
        ap (λ f. f.src) (front-new src s),
        (find_src-frame s.at at' src fs same).1,
        unique-frame s.at at' fs same,
        not_there,
        k.paths,
      )
      refl

pub front-Keeps :
    (src : CString) (s : Store) (fs : List ℕ)
    → Keeps s fs
    → tfind src s.queued_files ≡ none
    → Keeps (front src s) (s.used ∷ fs) × (waiting (front src s) (s.used ∷ fs) ≡ src ∷ waiting s fs)
unfolding distinct
front-Keeps src s fs k h =
    let apart = below-absent s.used fs k.below in
    let at' = (front src s).at in
    let new = front-new src s in
    let same = front-src src s fs apart in
    (
      record {
        linked =
            push-Linked s.at at' s.used s.inqueue fs apart
              (ap (λ f. f.prev) new, ap (λ f. f.next) new)
              (λ b o.
                ap (λ f. f.next) (front-old src s b o) ∙ next_kept s.inqueue (some s.used) s.at b)
              (λ b o.
                ap (λ f. f.prev) (front-old src s b o) ∙ prev_set s.inqueue (some s.used) s.at b)
              k.own k.linked;
        own = ground (arith, apart, k.own);
        below = ground (arith, below-suc s.used fs k.below);
        number = omega (arith, k.number);
        found = λ p. tfind-insert p src s.used s.queued_files h ∙ found_front src s fs p k same;
        paths = paths_front src s fs k h same;
      },
      ap₂ (λ x xs. x ∷ xs) (ap (λ f. f.src) new) (waiting-frame s.at at' fs same),
    )
