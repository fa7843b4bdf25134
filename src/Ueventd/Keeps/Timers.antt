-- ===== src/Ueventd/Keeps/Timers.antt =====
-- Invariants of the daemon are kept. `update_timerfd`.
use make_initrd.Prelude.{
  ℕ, refl, Bool, true, false, Option, none, some, List, [], ◌∷◌, not, ◌||◌, if◌then◌else◌, CString,
  ltb, ◌==◌,
}
use make_initrd.Ueventd.Watch.{Daemon, fatal, Run, go, die, Dirent, is_reg, skipped}
use make_initrd.Ueventd.Timer.{
  Move, Scan, scanned, stopped, Queues, renamed, ensure_queue_dir, move_timer_event, after_dot,
  scan_entry, parse_timer_due, scan_queue, scan_timers, update_timerfd, ◌>>=◌ as bind_scan, Rename,
  hidden, after_rename, move_named, scan_due, finish, ullong_max,
}
use make_initrd.Ueventd.Keeps.{Runs, Scans, Closed}
use make_initrd.Ueventd.Keeps.Paths.{if_Runs, keep_ensure}

module _ (P : Daemon → Type 0) (c : Closed P) where
  pub keep_rename : (r : Rename) (name : CString) (d : Daemon) → P d → P (after_rename r name d)
  unfolding after_rename
  keep_rename renamed name d h = c.on_named name d h
  keep_rename _ name d h = h

  pub after_ensure :
      (r : Run) (m : Move) (queue : CString)
      → Runs P r
      → Runs P (elim r [ die e ↦ die e | go d' ↦ go (after_rename m.rename queue d') ])
  after_ensure (die e) m queue h = h
  after_ensure (go d) m queue h = keep_rename m.rename queue d h

  pub keep_named :
      (o : Option CString) (queue : CString) (m : Move) (d : Daemon)
      → P d
      → Runs P (move_named o queue m d)
  unfolding move_named
  keep_named none queue m d h = h
  keep_named (some []) queue m d h = h
  keep_named (some (x ∷ xs)) queue m d h =
      after_ensure (ensure_queue_dir queue m d) m queue (keep_ensure P c queue m d h)

  pub of_move :
      (r : Run) (next : ℕ)
      → Runs P r
      → Scans P (elim r [ go d' ↦ scanned next d' | die e ↦ stopped e ])
  of_move (go d) next h = h
  of_move (die e) next h = h

  pub if_Scans : (b : Bool) (x y : Scan) → Scans P x → Scans P y → Scans P (if b then x else y)
  if_Scans true x y h k = h
  if_Scans false x y h k = k

  pub keep_due :
      (now : ℕ) (queue name : CString) (due : ℕ) (m : Move) (next : ℕ) (d : Daemon)
      → P d
      → Scans P (scan_due now queue name due m next d)
  unfolding scan_due move_timer_event
  keep_due now queue name due m next d h = if_Scans (due == 0) _ _ h (
      if_Scans (ltb now due) _ _ h (
        of_move (move_named (after_dot name) queue m d) next
          (keep_named (after_dot name) queue m d h)))

  pub keep_entry :
      (now : ℕ) (queue : CString) (ent : Dirent) (m : Move) (next : ℕ) (d : Daemon)
      → P d
      → Scans P (scan_entry now queue ent m next d)
  unfolding scan_entry
  keep_entry now queue ent m next d h =
      if_Scans (hidden ent.d_name || not (is_reg ent.d_type)) (scanned next d) _ h
        (keep_due now queue ent.d_name (parse_timer_due ent.d_name) m next d h)

  pub then_scan :
      (s : Scan) (f : ℕ → Daemon → Scan)
      → Scans P s
      → ((n : ℕ) (d : Daemon) → P d → Scans P (f n d))
      → Scans P (bind_scan s f)
  then_scan (scanned n d) f h k = k n d h
  then_scan (stopped r) f h k = h

  pub keep_queue :
      (now : ℕ) (queue : CString) (ents : List (Dirent × Move)) (next : ℕ) (d : Daemon)
      → P d
      → Scans P (scan_queue now queue ents next d)
  unfolding scan_queue
  keep_queue now queue [] next d h = h
  keep_queue now queue ((ent, m) ∷ ents) next d h =
      then_scan (scan_entry now queue ent m next d) (scan_queue now queue ents)
        (keep_entry now queue ent m next d h) (keep_queue now queue ents)

  pub keep_timers :
      (now : ℕ) (queues : Queues) (next : ℕ) (d : Daemon)
      → P d
      → Scans P (scan_timers now queues next d)
  unfolding scan_timers
  keep_timers now [] next d h = h
  keep_timers now ((ent, files) ∷ queues) next d h =
      then_scan (if skipped ent then scanned next d else scan_queue now ent.d_name files next d)
        (scan_timers now queues)
        (if_Scans (skipped ent) _ _ h (keep_queue now ent.d_name files next d h))
        (keep_timers now queues)

  pub keep_finish : (ok : Bool) (s : Scan) → Scans P s → Runs P (finish ok s)
  unfolding finish
  keep_finish ok (stopped r) h = h
  keep_finish ok (scanned next d) h = if_Runs P c ok _ (die fatal) (c.on_timer _ _ d h) refl

  pub keep_update :
      (now : ℕ) (ok : Bool) (queues : Queues) (d : Daemon)
      → P d
      → Runs P (update_timerfd now ok queues d)
  unfolding update_timerfd
  keep_update now ok queues d h =
      keep_finish ok (scan_timers now queues ullong_max d) (keep_timers now queues ullong_max d h)
