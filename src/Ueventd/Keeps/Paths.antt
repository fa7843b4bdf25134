-- ===== src/Ueventd/Keeps/Paths.antt =====
-- Invariants of the daemon are kept. Adding watches: `watch_path`, `watch_queues`, `ensure_queue_dir`.
use make_initrd.Prelude.{
  refl, Bool, true, false, Option, none, some, List, [], ◌∷◌, not, ◌&&◌, if◌then◌else◌, CString,
}
use make_initrd.Ueventd.Watch.{
  Kind, queue_dir, Watch, Daemon, fatal, Run, go, die, Dirent, Answers, added, exists, failed,
  watch_path, watch_dirs, find_queue_watch, skipped, Status, success, failure, after_add,
  after_stat,
}
use make_initrd.Ueventd.Timer.{Move, ensure_queue_dir}
use make_initrd.Ueventd.Keeps.{Runs, Closed}

module _ (P : Daemon → Type 0) (c : Closed P) where
  pub keep_path :
      (a : Answers) (name : CString) (k : Kind) (d : Daemon) → P d → P (watch_path a name k d).1
  unfolding watch_path
  keep_path a name k d h = elim a.add as (λ r. P (after_add r a name k d).1) [
    | exists ↦ h
    | failed ↦ h
    | added wfd ↦ elim a.st_ino as (λ r. P (after_stat wfd r a.is_empty name k d).1) [
      | none ↦ h
      | some ino ↦ c.on_push wfd ino a.is_empty name k d h
    ]
  ]

  pub dirs_next :
      (st : Status) (d : Daemon) (rest : Run)
      → Runs P rest
      → Runs P (elim st [ failure ↦ die fatal | success ↦ rest ])
  dirs_next success d rest h = h
  dirs_next failure d rest h = refl

  pub if_Runs : (b : Bool) (x y : Run) → Runs P x → Runs P y → Runs P (if b then x else y)
  if_Runs true x y h k = h
  if_Runs false x y h k = k

  pub keep_dirs :
      (k : Kind) (ents : List (Dirent × Answers)) (d : Daemon) → P d → Runs P (watch_dirs k ents d)
  unfolding watch_dirs
  keep_dirs k [] d h = h
  keep_dirs k ((ent, a) ∷ ents) d h =
      let d' = (watch_path a ent.d_name k d).1 in
      if_Runs (skipped ent) (watch_dirs k ents d) _ (keep_dirs k ents d h) (
        dirs_next (watch_path a ent.d_name k d).0 d' (watch_dirs k ents d')
          (keep_dirs k ents d' (keep_path a ent.d_name k d h)))

  pub ensure_inner :
      (o : Option Watch) (name : CString) (m : Move) (d : Daemon)
      → P d
      → Runs P (elim o [
        | some w ↦ go d
        | none ↦ elim (watch_path m.answers name queue_dir d).0 [
          | failure ↦ die fatal
          | success ↦ go (watch_path m.answers name queue_dir d).1
        ]
      ])
  ensure_inner (some w) name m d h = h
  ensure_inner none name m d h =
      dirs_next (watch_path m.answers name queue_dir d).0 d
        (go (watch_path m.answers name queue_dir d).1) (keep_path m.answers name queue_dir d h)

  pub keep_ensure :
      (name : CString) (m : Move) (d : Daemon) → P d → Runs P (ensure_queue_dir name m d)
  unfolding ensure_queue_dir
  keep_ensure name m d h =
      if_Runs (not (m.mkdir_queue && m.mkdir_tmp)) (die fatal) _ refl
        (ensure_inner (find_queue_watch name d.watch_list) name m d h)
