-- ===== src/Scanmod/Walk.antt =====
-- utils/initrd-scanmod/initrd-scanmod-walk.c: the modules under the kernel's directory, and the workers
-- that share them. `fts_read` is the list of its entries; where it fails the last is unread. The steps of
-- the workers interleave in any order; `queue_pop` and the printing of a line are under a mutex each.
use make_initrd.Prelude.{
  ℕ, zero, suc, ◌-◌, Bool, true, false, ◌&&◌, Option, none, some, List, [], ◌∷◌, ◌++◌, ◌==◌,
  if◌then◌else◌, ltb, leb, length, drop, any, all, replicate, CString, codes, str_eq, get_or,
}
use make_initrd.Scanmod.Rules.{Ruleset}
use make_initrd.Scanmod.Match.{Answers, process_module}

-- FTS_F or FTS_SL; FTS_DNR, FTS_ERR or FTS_NS; anything else.
pub data FtsInfo : Type 0 where
  file unread other : FtsInfo

pub record FtsEntry : Type 0 where
  pub fts_info : FtsInfo
  pub fts_accpath : CString
  pub fts_path : CString

abbrev pub exts : List CString
exts = codes ".ko" ∷ codes ".ko.zst" ∷ codes ".ko.xz" ∷ codes ".ko.gz" ∷ codes ".ko.bz2" ∷ []

abbrev pub ends_with : CString → CString → Bool
ends_with filename ext =
    leb (length ext) (length filename) && str_eq (drop (length filename - length ext) filename) ext

unfoldable pub is_kernel_modname : CString → Bool
is_kernel_modname filename = any (ends_with filename) exts

-- The paths of the queue, or none where the program exits at an entry that cannot be read.
unfoldable pub collect : List FtsEntry → List CString → Option (List CString)
unfolding is_kernel_modname
collect [] paths = some paths
collect (e ∷ es) paths =
    let kept =
      collect es (if is_kernel_modname e.fts_accpath then paths ++ e.fts_path ∷ [] else paths) in
    let passed = collect es paths in
    elim e.fts_info [ file ↦ kept | unread ↦ none | other ↦ passed ]

pub record ModuleQueue : Type 0 where
  pub paths : List CString
  pub current : ℕ

unfoldable pub queue_pop : ModuleQueue → Option CString × ModuleQueue
queue_pop q =
    if ltb q.current (length q.paths)
    then (some (get_or q.paths q.current []), record q { current = suc q.current })
    else (none, q)

-- A worker before `queue_pop`, with the path that it was given, and behind its loop.
pub data Worker : Type 0 where
  idle ended : Worker
  holding : CString → Worker

unfoldable pub is_ended : Worker → Bool
is_ended ended = true
is_ended _ = false

-- The exit at an entry that cannot be read, a join that waits for a worker, and what was printed.
pub data Found : Type 0 where
  exits waiting : Found
  printed : List CString → Found

unfoldable pub put : List Worker → ℕ → Worker → List Worker
put [] i w = []
put (v ∷ ws) zero w = w ∷ ws
put (v ∷ ws) (suc i) w = v ∷ put ws i w

unfoldable pub n_workers : ℕ → ℕ → ℕ → ℕ
n_workers jobs nprocs count =
    let n = if jobs == 0 then if nprocs == 0 then 1 else nprocs else jobs in
    if ltb count n then count else n

-- The workers that run: the program itself, or the threads that pthread_create made.
unfoldable pub started : ℕ → ℕ → ℕ
started n created = if leb n 1 then 1 else if ltb created n then created else n

module _ (kmod : CString → Answers) (sets : List Ruleset) where
  unfoldable pub taken :
      Option CString × ModuleQueue → List CString → Worker × ModuleQueue × List CString
  taken (none, q) out = (ended, q, out)
  taken (some p, q) out = (holding p, q, out)

  -- What a worker does to the queue and the output: one `queue_pop`, or `process_module`, of which only
  -- the one line that it may print can be seen by others.
  unfoldable pub step : Worker → ModuleQueue × List CString → Worker × ModuleQueue × List CString
  unfolding queue_pop taken
  step idle (q, out) = taken (queue_pop q) out
  step (holding p) (q, out) =
      (idle, q, if process_module (kmod p) p sets then out ++ p ∷ [] else out)
  step ended (q, out) = (ended, q, out)

  unfoldable pub turn :
      ℕ → List Worker × ModuleQueue × List CString → List Worker × ModuleQueue × List CString
  unfolding step put
  turn i (ws, q, out) =
      let (w, q', out') = step (get_or ws i ended) (q, out) in (put ws i w, q', out')

  -- The schedule lists the workers in the order of their steps.
  unfoldable pub run_workers :
      List ℕ → List Worker × ModuleQueue × List CString → List Worker × ModuleQueue × List CString
  unfolding turn
  run_workers [] s = s
  run_workers (i ∷ is) s = run_workers is (turn i s)

  unfoldable pub join : List Worker × ModuleQueue × List CString → Found
  unfolding is_ended
  join (ws, q, out) = if all is_ended ws then printed out else waiting

  unfoldable pub share : ℕ → ℕ → ℕ → List ℕ → List CString → Found
  unfolding n_workers started run_workers join
  share jobs nprocs created schedule [] = printed []
  share jobs nprocs created schedule (p ∷ ps) =
      let count = started (n_workers jobs nprocs (length (p ∷ ps))) created in
      join (run_workers schedule (replicate count idle, record { paths = p ∷ ps; current = 0 }, []))

  unfoldable pub find_modules : ℕ → ℕ → ℕ → List ℕ → List FtsEntry → Found
  unfolding share collect
  find_modules jobs nprocs created schedule entries = elim (collect entries []) [
    | none ↦ exits
    | some paths ↦ share jobs nprocs created schedule paths
  ]
