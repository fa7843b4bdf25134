-- ===== src/Put/Refines.antt =====
-- The queue of files as a list of paths.
use make_initrd.Prelude.{
  ℕ, ◌≡◌, refl, sym, ap, ◌∙◌, Bool, true, false, not, ◌||◌, Option, none, some, List, [], ◌∷◌, ◌++◌,
  map, arith, ◌==◌, ltb, if◌then◌else◌, length-append, any, all, CString, str_eq, str_eq_iff,
  Bool-cases, Option-cases, inl, inr,
}
use make_initrd.Put.Queue.{
  File, Store, tfind, is_path_queued, is_path_added, cut, Enqueued, enqueued, push_front,
  enqueue_src, enqueue_item, unlink, dequeue_item, is_some,
}
use make_initrd.Put.Linked.{absent, distinct, Owned, unlink-Linked}
use make_initrd.Put.Search.{
  tfind-tdelete, find_src, find_src-frame, unique-frame, unique-middle, find_src-middle,
}
use make_initrd.Put.Front.{
  Keeps, waiting, waiting-frame, next-src, prev-src, front, front-new, no_prev, front-Keeps,
}

abbrev pub contains : CString → List CString → Bool
contains p ps = any (λ q. str_eq q p) ps

-- What `enqueue_item` promises: a path that is excluded, that waits or that is taken leaves the queue
-- alone, any other comes to its front.
pub spec_enqueue : Bool → Bool → CString → List CString → List CString
spec_enqueue excluded taken p queue =
    if excluded || (contains p queue || taken) then queue else p ∷ queue

find-contains :
    (at : ℕ → File) (p : CString) (fs : List ℕ)
    → contains p (map (λ a. (at a).src) fs) ≡ is_some (find_src at p fs)
unfolding find_src
find-contains at p [] = refl
find-contains at p (a ∷ fs) = ground (arith, find-contains at p fs)

all-middle :
    (f : ℕ → Bool) (xs : List ℕ) (a : ℕ) (ys : List ℕ)
    → all f (xs ++ a ∷ ys) ≡ true
    → (all f (xs ++ ys) ≡ true) × (f a ≡ true)
all-middle f [] a ys h = ground arith
all-middle f (x ∷ xs) a ys h = let (r, b) = all-middle f xs a ys (ground arith) in (ground arith, b)

distinct-middle : (xs : List ℕ) (a : ℕ) (ys : List ℕ) → Owned (xs ++ a ∷ ys) → Owned (xs ++ ys)
unfolding distinct
distinct-middle [] a ys h = ground arith
distinct-middle (x ∷ xs) a ys h =
    ground (arith, distinct-middle xs a ys, all-middle (λ b. not (b == x)) xs a ys)

unlink-src : (a : ℕ) (at : ℕ → File) (b : ℕ) → (unlink a at b).src ≡ (at b).src
unfolding unlink
unlink-src a at b = prev-src (at a).next (at a).prev _ b ∙ next-src (at a).prev (at a).next at b

-- Taking a file from anywhere in the queue leaves the others, their order and their paths, and the
-- counter does not wrap.
pub dequeue_item_lem :
    (s : Store) (xs : List ℕ) (a : ℕ) (ys : List ℕ)
    → Keeps s (xs ++ a ∷ ys)
    → Keeps (dequeue_item (some a) s) (xs ++ ys)
      × (waiting (dequeue_item (some a) s) (xs ++ ys) ≡ waiting s (xs ++ ys))
unfolding dequeue_item
dequeue_item_lem s xs a ys k =
    let (new, u) = unique-middle s.at xs a ys k.paths in
    let same = λ (b : ℕ) (h : absent b (xs ++ ys) ≡ false). unlink-src a s.at b in
    (
      record {
        linked = unlink-Linked s.at s.inqueue xs a ys k.own k.linked;
        own = distinct-middle xs a ys k.own;
        below = (all-middle (λ b. ltb b s.used) xs a ys k.below).0;
        number = ground (arith, k.number, length-append xs (a ∷ ys), length-append xs ys);
        found = λ p.
            tfind-tdelete p (s.at a).src s.queued_files
            ∙ ap (λ o. if str_eq (s.at a).src p then none else o) (k.found p)
            ∙ sym (find_src-middle s.at p xs a ys new)
            ∙ sym (find_src-frame s.at (unlink a s.at) p (xs ++ ys) same).0;
        paths = unique-frame s.at (unlink a s.at) (xs ++ ys) same ∙ u;
      },
      waiting-frame s.at (unlink a s.at) (xs ++ ys) same,
    )

str_eq_refl : (p : CString) → str_eq p p ≡ true
str_eq_refl p = (str_eq_iff p p).1 refl

abbrev pub taken : CString → Store → Bool
taken p s = is_some (tfind p s.files)

-- A call, what it answered and how the queue is then.
pub record Enqueues (excluded : Bool) (p : CString) (s : Store) (fs : List ℕ) (r : Enqueued)
    : Type 0 where
  pub answer : Option ℕ
  pub after : Store
  pub queue : List ℕ
  pub returns : r ≡ enqueued answer after
  pub kept : Keeps after queue
  pub spec : waiting after queue ≡ spec_enqueue excluded (taken p s) p (waiting s fs)
  pub tree : after.files ≡ s.files
  pub points : answer ≡ (if excluded then none else find_src after.at p queue)

added_lem :
    (p : CString) (s : Store) → tfind p s.queued_files ≡ none → is_path_added p s ≡ taken p s
unfolding is_path_added is_path_queued
added_lem p s h = rw h (ground arith)

push_lem :
    (p : CString) (s : Store) (fs : List ℕ)
    → Keeps s fs
    → push_front p s ≡ enqueued (some s.used) (front p s)
unfolding push_front
push_lem p s fs k = rw (no_prev s.at s.inqueue fs k.linked) refl

-- Where the path is not excluded and does not wait.
enqueue_new :
    (p : CString) (s : Store) (fs : List ℕ)
    → Keeps s fs
    → find_src s.at p fs ≡ none
    → Enqueues false p s fs (if is_path_added p s then enqueued none s else push_front p s)
unfolding spec_enqueue find_src
enqueue_new p s fs k absent_p =
    let h = k.found p ∙ absent_p in
    let waits : contains p (waiting s fs) ≡ false = find-contains s.at p fs ∙ ap is_some absent_p in
    elim (Bool-cases (taken p s)) [
      | inl there ↦ record {
        answer = none;
        after = s;
        queue = fs;
        returns = rw (added_lem p s h, there) refl;
        kept = k;
        spec = rw (waits, there) refl;
        tree = refl;
        points = sym absent_p;
      }
      | inr new ↦
          let (kept, paths) = front-Keeps p s fs k h in
          record {
            answer = some s.used;
            after = front p s;
            queue = s.used ∷ fs;
            returns = rw (added_lem p s h, new) (push_lem p s fs k);
            kept = kept;
            spec = rw (waits, new) paths;
            tree = refl;
            points = rw (ap (λ f. f.src) (front-new p s), str_eq_refl p) refl;
          }
    ]

enqueue_src_lem :
    (exclude : List (CString → Bool)) (p : CString) (s : Store) (fs : List ℕ)
    → Keeps s fs
    → Enqueues (any (λ m. m p) exclude) p s fs (enqueue_src exclude p s)
unfolding enqueue_src spec_enqueue
enqueue_src_lem exclude p s fs k = elim (Bool-cases (any (λ m. m p) exclude)) [
  | inl excluded ↦ record {
    answer = none;
    after = s;
    queue = fs;
    returns = rw excluded refl;
    kept = k;
    spec = rw excluded refl;
    tree = refl;
    points = rw excluded refl;
  }
  | inr plain ↦ elim (Option-cases (find_src s.at p fs)) [
    | inl absent_p ↦ rw (plain, k.found p, absent_p) (enqueue_new p s fs k absent_p)
    | inr (a, e) ↦ record {
      answer = some a;
      after = s;
      queue = fs;
      returns = rw (plain, k.found p, e) refl;
      kept = k;
      spec = rw (plain, find-contains s.at p fs, e) refl;
      tree = refl;
      points = rw (plain, e) refl;
    }
  ]
]

-- `enqueue_item` never finds a head with something before it. It does to the list of the paths that
-- wait what the description says, leaves the tree of taken files alone, and answers with the file of
-- that path in the queue, or with null where the path is excluded or only taken.
pub enqueue_item_lem :
    (exclude : List (CString → Bool)) (str : CString) (len : Option ℕ) (s : Store) (fs : List ℕ)
    → Keeps s fs
    → Enqueues
        (any (λ m. m (cut str len)) exclude)
        (cut str len)
        s
        fs
        (enqueue_item exclude str len s)
unfolding enqueue_item
enqueue_item_lem exclude str len s fs k = enqueue_src_lem exclude (cut str len) s fs k
