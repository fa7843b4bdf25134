-- ===== src/Ueventd/Keeps.antt =====
-- Invariants of the daemon: what a predicate on its state has to be closed under so that every
-- handler, every round and the startup keep it.
pub mod Paths
pub mod Timers
pub mod Handlers
pub mod Rounds
use make_initrd.Prelude.{
  ℕ, ◌≡◌, refl, Bool, true, false, Option, none, some, List, [], ◌∷◌, not, ◌&&◌, ◌||◌,
  if◌then◌else◌, CString, codes, ltb, ◌==◌, All,
}
use make_initrd.Ueventd.Watch.{
  Kind, root_dir, queue_dir, pause_dir, timer_root, timer_dir, Watch, Daemon, fatal, Run, go, die,
  Dirent, is_reg, Answers, added, exists, failed, push_watch, watch_path, unwatch_path,
  mark_queue_dirty, apply_pause, watch_dirs, find_queue_watch, skipped, Status, success, failure,
  after_add, after_stat, ◌>>=◌ as bind_run,
}
use make_initrd.Ueventd.Timer.{
  Move, Scan, scanned, stopped, Queues, renamed, named, ensure_queue_dir, move_timer_event,
  after_dot, scan_entry, parse_timer_due, scan_queue, scan_timers, update_timerfd,
  ◌>>=◌ as bind_scan, Rename, hidden, after_rename, move_named, scan_due, finish, ullong_max,
}
use make_initrd.Ueventd.Events.{
  InotifyEvent, has_fd, queue_of_fd, find_wd, by_kind, on_watch, inotify_event,
  process_inotify_events, process_pipefd_events, Signal, short_read, terminate, child_exit, reap,
  Handled, handled, done, dead, process_signal_events, process_timerfd_events,
}
use make_initrd.Ueventd.Loop.{
  Fork, Ready, inotify, signal, pipe, timer, of_run, fd_handler, handle_ready, dispatch, Round,
  main_round, main_loop, Startup, startup, initial, daemon_main, ◌>>=◌ as bind_handled, open_dir,
  then_start, in_order, or_exit, and_then, and_then_handled,
}

-- The daemon goes on, or leaves its loop, in a state with `P`, or stops on a failed system call.
abbrev pub After : (Daemon → Type 0) → Handled → Type 0
After P (handled d) = P d
After P (done d) = P d
After P (dead r) = r ≡ fatal

abbrev pub Runs : (Daemon → Type 0) → Run → Type 0
Runs P r = After P (of_run r)

abbrev pub Scans : (Daemon → Type 0) → Scan → Type 0
Scans P (scanned n d) = P d
Scans P (stopped r) = r ≡ fatal

pub record Closed (P : Daemon → Type 0) : Type 0 where
  pub on_push :
      (wfd ino : ℕ) (e : Bool) (name : CString) (k : Kind) (d : Daemon)
      → P d
      → P (push_watch wfd ino e name k d)
  pub on_unwatch : (ino : ℕ) (d : Daemon) → P d → P (unwatch_path ino d)
  pub on_named : (name : CString) (d : Daemon) → P d → P (mark_queue_dirty (named name) d)
  pub on_fd : (fd : ℕ) (d : Daemon) → P d → P (mark_queue_dirty (queue_of_fd fd) d)
  pub on_event :
      (fd : ℕ) (w : Watch) (d : Daemon)
      → find_wd fd d.watch_list ≡ some w
      → w.kind ≡ queue_dir
      → P d
      → P (mark_queue_dirty (has_fd fd) d)
  pub on_pause : (ents : List Dirent) (d : Daemon) → P d → P (apply_pause ents d)
  pub on_reap : (pids : List ℕ) (d : Daemon) → P d → P (reap pids d)
  pub on_timer :
      (changed : Bool) (armed : ℕ) (d : Daemon)
      → P d
      → P (record d { timer_changed = changed; armed = armed })
  pub on_dispatch : (forks : ℕ → Fork) (d : Daemon) → P d → Runs P (dispatch forks d)
