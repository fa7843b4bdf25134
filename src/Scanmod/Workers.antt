-- ===== src/Scanmod/Workers.antt =====
-- What the workers print between them.
use make_initrd.Prelude.{
  ℕ, zero, suc, ◌+◌, ◌-◌, ◌*◌, ◌≤◌, ◌≡◌, refl, sym, ap, ◌∙◌, true, List, [], ◌∷◌, ◌++◌, ◌==◌, arith,
  if◌then◌else◌, ltb, length, replicate, any, CString, get_or, Bool-cases, inl, inr, if_cases,
  ==_iff, length-replicate, ◌<◌,
}
use mathlib.Core.Path.{subst}
use make_initrd.Scanmod.Rules.{Ruleset}
use make_initrd.Scanmod.Match.{Answers, process_module}
use make_initrd.Scanmod.Walk.{
  ModuleQueue, Worker, idle, ended, holding, is_ended, printed, put, n_workers, started, taken,
  step, turn, run_workers, join, share,
}
use make_initrd.Scanmod.Chosen.{accepts, process_module_lem}
use make_initrd.Scanmod.Turns.{
  count, count-append, turns, rest, needs, pop-more, pop-none, drop-all, drop-next, length-put,
  get_or-over, needs_mono, needs-zero, all-ended, Ready, replicate-Ready, started-some, get_or-put,
}

module _ (kmod : CString → Answers) (sets : List Ruleset) where
  -- The files to print, in order.
  pub chosen : List CString → List CString
  chosen [] = []
  chosen (p ∷ ps) = if any (accepts (kmod p) p) sets then p ∷ chosen ps else chosen ps

  -- What a worker will still print of the path that it holds.
  pending : CString → Worker → ℕ
  pending x idle = 0
  pending x ended = 0
  pending x (holding p) = count x (chosen (p ∷ []))

  pendings : CString → List Worker → ℕ
  pendings x [] = 0
  pendings x (w ∷ ws) = pending x w + pendings x ws

  pendings-put :
      (x : CString) (ws : List Worker) (i : ℕ) (w : Worker)
      → (length ws ≤ i → w ≡ ended)
      → pendings x (put ws i w) + pending x (get_or ws i ended) ≡ pendings x ws + pending x w
  unfolding put pendings pending
  pendings-put x [] i w h = rw (h (omega arith)) refl
  pendings-put x (v ∷ ws) zero w h = omega arith
  pendings-put x (v ∷ ws) (suc i) w h = omega (arith, pendings-put x ws i w (λ l. h (omega arith)))

  count-chosen :
      (x p : CString) (ps : List CString)
      → count x (chosen (p ∷ ps)) ≡ count x (chosen (p ∷ [])) + count x (chosen ps)
  unfolding chosen count
  count-chosen x p ps = ground arith

  count-empty : (x : CString) (ps : List CString) → length ps ≤ 0 → count x (chosen ps) ≡ 0
  unfolding chosen count
  count-empty x [] h = refl
  count-empty x (p ∷ ps) h = absurd (omega arith)

  -- What a step of a worker keeps, and what it gets nearer to.
  record Stepped (v : Worker) (q : ModuleQueue) (out : List CString)
      (r : Worker × ModuleQueue × List CString) : Type 0 where
    shrinks : length (rest r.1) ≤ length (rest q)
    nearer : needs r.0 (length (rest r.1)) ≤ needs v (length (rest q)) - 1
    at_end : (is_ended v ≡ true → length (rest q) ≤ 0) → is_ended r.0 ≡ true → length (rest r.1) ≤ 0
    keeps :
        (x : CString)
        → pending x r.0 + count x r.2 + count x (chosen (rest r.1))
          ≡ pending x v + count x out + count x (chosen (rest q))

  idle-Stepped :
      (q : ModuleQueue) (out : List CString) → Stepped idle q out (step kmod sets idle (q, out))
  unfolding step taken is_ended needs pending rest
  idle-Stepped q out = elim (Bool-cases (ltb q.current (length q.paths))) [
    | inl more ↦
        let p = get_or q.paths q.current [] in
        let q' : ModuleQueue = record q { current = suc q.current } in
        let e : rest q ≡ p ∷ rest q' = drop-next q.paths q.current more in
        let l : length (rest q) ≡ suc (length (rest q')) = ap (λ l. length l) e in
        subst (λ r. Stepped idle q out (taken kmod sets r out)) (sym (pop-more q more))
          (record {
            shrinks = omega (arith, l);
            nearer = omega (arith, l);
            at_end = λ h k. cc;
            keeps = λ x. rw e (omega (arith, count-chosen x p (rest q')));
          })
    | inr over ↦
        let e : rest q ≡ [] = drop-all q.paths q.current over in
        subst (λ r. Stepped idle q out (taken kmod sets r out)) (sym (pop-none q over))
          (record {
            shrinks = omega arith;
            nearer = omega arith;
            at_end = λ h k. rw e (omega arith);
            keeps = λ x. refl;
          })
  ]

  count-printed :
      (x p : CString) (out : List CString)
      → ((kmod p).opens ≡ true → (kmod p).named ≡ true)
      → count x (if process_module (kmod p) p sets then out ++ p ∷ [] else out)
        ≡ count x out + count x (chosen (p ∷ []))
  unfolding chosen count
  count-printed x p out named = elim (Bool-cases (any (accepts (kmod p) p) sets)) [
    | inl fits ↦ rw (process_module_lem (kmod p) p sets named, fits) (count-append x out (p ∷ []))
    | inr none_fits ↦ rw (process_module_lem (kmod p) p sets named, none_fits) (omega arith)
  ]

  step-Stepped :
      ((p : CString) → (kmod p).opens ≡ true → (kmod p).named ≡ true)
      → (v : Worker) (q : ModuleQueue) (out : List CString)
      → Stepped v q out (step kmod sets v (q, out))
  unfolding step is_ended needs pending
  step-Stepped named idle q out = idle-Stepped q out
  step-Stepped named ended q out = record {
    shrinks = omega arith;
    nearer = omega arith;
    at_end = λ h k. h refl;
    keeps = λ x. refl;
  }
  step-Stepped named (holding p) q out = record {
    shrinks = omega arith;
    nearer = omega arith;
    at_end = λ h k. cc;
    keeps = λ x. omega (arith, count-printed x p out (named p));
  }

  pendings-ended :
      (x : CString) (ws : List Worker) → ((i : ℕ) → get_or ws i ended ≡ ended) → pendings x ws ≡ 0
  unfolding pendings pending
  pendings-ended x [] h = refl
  pendings-ended x (w ∷ ws) h = rw (h 0) (omega (arith, pendings-ended x ws (λ i. h (suc i))))

  pendings-idle : (x : CString) (n : ℕ) → pendings x (replicate n idle) ≡ 0
  unfolding pendings pending
  pendings-idle x zero = refl
  pendings-idle x (suc n) = omega (arith, pendings-idle x n)

  step-over :
      (ws : List Worker) (i : ℕ) (q : ModuleQueue) (out : List CString)
      → length ws ≤ i
      → (step kmod sets (get_or ws i ended) (q, out)).0 ≡ ended
  unfolding step
  step-over ws i q out h = rw (get_or-over ws i h) refl

  -- How often a file was, is or will be printed.
  total : CString → List Worker × ModuleQueue × List CString → ℕ
  total x (ws, q, out) = pendings x ws + count x out + count x (chosen (rest q))

  module _ (named : (p : CString) → (kmod p).opens ≡ true → (kmod p).named ≡ true) where
    turn-Ready :
        (i : ℕ) (is : List ℕ) (ws : List Worker) (q : ModuleQueue) (out : List CString)
        → Ready (i ∷ is) ws q
        → let r = turn kmod sets i (ws, q, out) in Ready is r.0 r.1
    unfolding turn turns
    turn-Ready i is ws q out ready =
        let v = get_or ws i ended in
        let r = step kmod sets v (q, out) in
        let stepped = step-Stepped named v q out in
        let at : (j : ℕ)
            → get_or (put ws i r.0) j ended ≡ (if j == i then r.0 else get_or ws j ended) =
          λ j. get_or-put ws i j r.0 (step-over ws i q out) in
        record {
          enough = λ j.
              subst (λ w. needs w (length (rest r.1)) ≤ turns j is) (sym (at j))
                (if_cases (λ w. needs w (length (rest r.1)) ≤ turns j is) (j == i) r.0
                  (get_or ws j ended)
                  (λ same.
                    let e : j ≡ i = (==_iff j i).0 same in
                    let own : needs v (length (rest q)) ≤ turns i (i ∷ is) = ready.enough i in
                    subst (λ k. needs r.0 (length (rest r.1)) ≤ turns k is) (sym e)
                      (ground (arith, own, stepped.nearer)))
                  (λ other.
                    let own : needs (get_or ws j ended) (length (rest q)) ≤ turns j (i ∷ is) =
                      ready.enough j in
                    ground (
                      arith,
                      own,
                      other,
                      needs_mono (get_or ws j ended) (length (rest r.1)) (length (rest q))
                          stepped.shrinks,
                    )));
          found_none = λ j l.
              let l' : j < length ws = omega (arith, length-put ws i r.0) in
              subst (λ w. is_ended w ≡ true → length (rest r.1) ≤ 0) (sym (at j))
                (if_cases (λ w. is_ended w ≡ true → length (rest r.1) ≤ 0) (j == i) r.0
                  (get_or ws j ended)
                  (λ same. stepped.at_end (
                    let e : j ≡ i = (==_iff j i).0 same in
                    subst (λ k. is_ended (get_or ws k ended) ≡ true → length (rest q) ≤ 0) e
                      (ready.found_none j l')))
                  (λ other k. omega (arith, ready.found_none j l' k, stepped.shrinks)));
        }

    turn-total :
        (x : CString) (i : ℕ) (ws : List Worker) (q : ModuleQueue) (out : List CString)
        → total x (turn kmod sets i (ws, q, out)) ≡ total x (ws, q, out)
    unfolding turn total
    turn-total x i ws q out =
        let v = get_or ws i ended in
        let r = step kmod sets v (q, out) in
        omega (
          arith,
          (step-Stepped named v q out).keeps x,
          pendings-put x ws i r.0 (step-over ws i q out),
        )

    -- The join gets every worker, and each chosen file was printed as often as it is in the queue.
    run-joined :
        (schedule : List ℕ) (ws : List Worker) (q : ModuleQueue) (out : List CString)
        → 1 ≤ length ws
        → Ready schedule ws q
        → (l : List CString) × (join kmod sets (run_workers kmod sets schedule (ws, q, out))
            ≡ printed l)
          × ((x : CString) → count x l ≡ total x (ws, q, out))
    unfolding run_workers join turns total count
    run-joined [] ws q out some_worker ready =
        let over : (i : ℕ) → get_or ws i ended ≡ ended =
          λ i. needs-zero (get_or ws i ended) (length (rest q)) (ready.enough i) in
        let empty : length (rest q) ≤ 0 = ready.found_none 0 (omega arith) (ap is_ended (over 0)) in
        (
          out,
          rw (all-ended ws over) refl,
          λ x. omega (arith, pendings-ended x ws over, count-empty x (rest q) empty),
        )
    run-joined (i ∷ is) ws q out some_worker ready =
        let r = turn kmod sets i (ws, q, out) in
        let (l, e, h) =
          run-joined is r.0 r.1 r.2 (unfold turn in omega (arith, length-put ws i _))
            (turn-Ready i is ws q out ready) in
        (l, e, λ x. h x ∙ turn-total x i ws q out)

    pub share_lem :
        (jobs nprocs created : ℕ) (schedule : List ℕ) (paths : List CString)
        → 1 ≤ created
        → ((i : ℕ)
            → i < started (n_workers jobs nprocs (length paths)) created
            → 2 * length paths + 1 ≤ turns i schedule)
        → (l : List CString) × (share kmod sets jobs nprocs created schedule paths ≡ printed l)
          × ((x : CString) → count x l ≡ count x (chosen paths))
    unfolding share total count chosen pendings rest
    share_lem jobs nprocs created schedule [] threads fair = ([], refl, λ x. refl)
    share_lem jobs nprocs created schedule (p ∷ ps) threads fair =
        let paths = p ∷ ps in
        let n = started (n_workers jobs nprocs (length paths)) created in
        let (l, e, h) =
          run-joined schedule (replicate n idle) (record { paths = paths; current = 0 }) []
            (omega (
              arith,
              length-replicate n idle,
              started-some jobs nprocs (length ps) created threads,
            ))
            (replicate-Ready n schedule paths fair) in
        (l, e, λ x. h x ∙ omega (arith, pendings-idle x n))
