-- ===== src/Scanmod/Turns.antt =====
-- The schedule of the workers, and how many steps a worker needs.
use make_initrd.Prelude.{
  ℕ, zero, suc, ◌+◌, ◌*◌, ◌≤◌, ◌≡◌, refl, sym, ap, true, false, none, some, List, [], ◌∷◌, ◌++◌,
  ◌==◌, arith, if◌then◌else◌, ltb, length, drop, replicate, all, CString, str_eq, get_or,
  Bool-cases, inl, inr, length-replicate, ◌<◌,
}
use mathlib.Core.Path.{subst}
use make_initrd.Scanmod.Walk.{
  ModuleQueue, queue_pop, Worker, idle, ended, holding, is_ended, put, n_workers, started,
}

-- How often a file is in a list.
unfoldable pub count : CString → List CString → ℕ
count x [] = 0
count x (p ∷ ps) = if str_eq p x then suc (count x ps) else count x ps

pub count-append : (x : CString) (l r : List CString) → count x (l ++ r) ≡ count x l + count x r
unfolding count
count-append x [] r = omega arith
count-append x (p ∷ l) r = ground (arith, count-append x l r)

-- How many steps of a worker are in a schedule.
unfoldable pub turns : ℕ → List ℕ → ℕ
turns i [] = 0
turns i (j ∷ js) = if i == j then suc (turns i js) else turns i js

-- What stands in the queue.
unfoldable pub rest : ModuleQueue → List CString
rest q = drop q.current q.paths

-- How many steps of its own a worker needs to come to its end.
unfoldable pub needs : Worker → ℕ → ℕ
needs idle n = 2 * n + 1
needs ended n = 0
needs (holding p) n = 2 * n + 2

pub pop-more :
    (q : ModuleQueue)
    → ltb q.current (length q.paths) ≡ true
    → queue_pop q ≡ (some (get_or q.paths q.current []), record q { current = suc q.current })
unfolding queue_pop
pop-more q h = rw h refl

pub pop-none : (q : ModuleQueue) → ltb q.current (length q.paths) ≡ false → queue_pop q ≡ (none, q)
unfolding queue_pop
pop-none q h = rw h refl

pub drop-all : (ps : List CString) (c : ℕ) → ltb c (length ps) ≡ false → drop c ps ≡ []
drop-all [] zero h = refl
drop-all [] (suc c) h = refl
drop-all (p ∷ ps) zero h = absurd (ground (arith, h))
drop-all (p ∷ ps) (suc c) h = drop-all ps c (ground (arith, h))

pub drop-next :
    (ps : List CString) (c : ℕ)
    → ltb c (length ps) ≡ true
    → drop c ps ≡ get_or ps c [] ∷ drop (suc c) ps
drop-next [] c h = absurd (ground (arith, h))
drop-next (p ∷ ps) zero h = refl
drop-next (p ∷ ps) (suc c) h = drop-next ps c (ground (arith, h))

pub length-put : (ws : List Worker) (i : ℕ) (w : Worker) → length (put ws i w) ≡ length ws
unfolding put
length-put [] i w = refl
length-put (v ∷ ws) zero w = refl
length-put (v ∷ ws) (suc i) w = ap suc (length-put ws i w)

pub get_or-over : (ws : List Worker) (i : ℕ) → length ws ≤ i → get_or ws i ended ≡ ended
get_or-over [] i h = refl
get_or-over (w ∷ ws) zero h = absurd (omega arith)
get_or-over (w ∷ ws) (suc i) h = get_or-over ws i (omega arith)

get_or-replicate : (n i : ℕ) (m : ℕ) → needs (get_or (replicate n idle) i ended) m ≤ 2 * m + 1
unfolding needs
get_or-replicate zero i m = omega arith
get_or-replicate (suc n) zero m = omega arith
get_or-replicate (suc n) (suc i) m = get_or-replicate n i m

replicate-idle : (n i : ℕ) → i < n → is_ended (get_or (replicate n idle) i ended) ≡ false
unfolding is_ended
replicate-idle zero i h = absurd (omega arith)
replicate-idle (suc n) zero h = refl
replicate-idle (suc n) (suc i) h = replicate-idle n i (omega arith)

pub needs_mono : (w : Worker) (m n : ℕ) → m ≤ n → needs w m ≤ needs w n
unfolding needs
needs_mono idle m n h = omega arith
needs_mono ended m n h = omega arith
needs_mono (holding p) m n h = omega arith

pub needs-zero : (w : Worker) (n : ℕ) → needs w n ≤ 0 → w ≡ ended
unfolding needs
needs-zero idle n h = absurd (omega arith)
needs-zero ended n h = refl
needs-zero (holding p) n h = absurd (omega arith)

pub all-ended : (ws : List Worker) → ((i : ℕ) → get_or ws i ended ≡ ended) → all is_ended ws ≡ true
unfolding is_ended
all-ended [] h = refl
all-ended (w ∷ ws) h = rw (h 0) (all-ended ws (λ i. h (suc i)))

-- Each worker has the steps that it needs, and one that has ended found the queue empty.
pub record Ready (schedule : List ℕ) (ws : List Worker) (q : ModuleQueue) : Type 0 where
  pub enough : (i : ℕ) → needs (get_or ws i ended) (length (rest q)) ≤ turns i schedule
  pub found_none :
      (i : ℕ) → i < length ws → is_ended (get_or ws i ended) ≡ true → length (rest q) ≤ 0

pub replicate-Ready :
    (n : ℕ) (schedule : List ℕ) (paths : List CString)
    → ((i : ℕ) → i < n → 2 * length paths + 1 ≤ turns i schedule)
    → Ready schedule (replicate n idle) (record { paths = paths; current = 0 })
unfolding rest
replicate-Ready n schedule paths fair = record {
  enough = λ i. elim (Bool-cases (ltb i n)) [
    | inl inside ↦
        omega (arith, get_or-replicate n i (length paths), fair i (ground (arith, inside)))
    | inr over ↦
        subst (λ w. needs w (length paths) ≤ turns i schedule)
          (sym (get_or-over (replicate n idle) i (ground (arith, over, length-replicate n idle))))
          (unfold needs in omega arith)
  ];
  found_none = λ i l e. let at = replicate-idle n i (omega (arith, length-replicate n idle)) in cc;
}

pub started-some :
    (jobs nprocs k created : ℕ) → 1 ≤ created → 1 ≤ started (n_workers jobs nprocs (suc k)) created
unfolding started n_workers
started-some jobs nprocs k created h = ground arith

pub get_or-put :
    (ws : List Worker) (i j : ℕ) (w : Worker)
    → (length ws ≤ i → w ≡ ended)
    → get_or (put ws i w) j ended ≡ (if j == i then w else get_or ws j ended)
unfolding put
get_or-put [] i j w h = rw (h (omega arith)) (ground arith)
get_or-put (v ∷ ws) zero zero w h = refl
get_or-put (v ∷ ws) zero (suc j) w h = ground arith
get_or-put (v ∷ ws) (suc i) zero w h = ground arith
get_or-put (v ∷ ws) (suc i) (suc j) w h = ground (arith, get_or-put ws i j w (λ l. h (omega arith)))
