-- ===== src/Ueventd/Events.antt =====
-- features/runtime/src/ueventd/ueventd.c: the handlers of the inotify, signal, pipe and timer
-- descriptors. A handler returns `done` where the C function returns non-zero and `main` leaves
-- its loop. The reads that fill a buffer are the list of what they return.
use make_initrd.Prelude.{
  ℕ, Bool, true, ◌&&◌, Option, none, some, List, [], ◌∷◌, map, ◌==◌, if◌then◌else◌,
}
use make_initrd.Ueventd.Watch.{
  Kind, root_dir, queue_dir, pause_dir, timer_root, timer_dir, Watch, Daemon, Death, Run, go, ◌>>=◌,
  Dirent, Answers, is_queue, unwatch_path, mark_queue_dirty, apply_pause, watch_dirs,
}

-- An event, and what the directories hold when its handler reads them. `wd` is none for the -1 of
-- a queue overflow.
pub record InotifyEvent : Type 0 where
  pub wd : Option ℕ
  pub delete_self : Bool
  pub create : Bool
  pub listing : List (Dirent × Answers)
  pub pauses : List Dirent

abbrev pub has_fd : ℕ → Watch → Bool
has_fd fd w = w.q_watchfd == fd

unfoldable pub find_wd : ℕ → List Watch → Option Watch
find_wd fd [] = none
find_wd fd (w ∷ ws) = if has_fd fd w then some w else find_wd fd ws

unfoldable pub touch_timer : Daemon → Daemon
touch_timer d = record d { timer_changed = true }

unfoldable pub by_kind : Kind → ℕ → InotifyEvent → Daemon → Run
unfolding touch_timer
by_kind root_dir fd ev d = if ev.create then watch_dirs queue_dir ev.listing d else go d
by_kind timer_root fd ev d =
    (if ev.create then watch_dirs timer_dir ev.listing d else go d) >>= λ d'. go (touch_timer d')
by_kind pause_dir fd ev d = go (apply_pause ev.pauses d)
by_kind timer_dir fd ev d = go (touch_timer d)
by_kind queue_dir fd ev d = go (mark_queue_dirty (has_fd fd) d)

unfoldable pub on_watch : Option Watch → ℕ → InotifyEvent → Daemon → Run
on_watch none fd ev d = go d
on_watch (some p) fd ev d =
    if ev.delete_self then go (unwatch_path p.q_ino d) else by_kind p.kind fd ev d

unfoldable pub inotify_event : Option ℕ → InotifyEvent → Daemon → Run
unfolding on_watch
inotify_event none ev d = go d
inotify_event (some fd) ev d = on_watch (find_wd fd d.watch_list) fd ev d

unfoldable pub process_inotify_events : List InotifyEvent → Daemon → Run
unfolding inotify_event
process_inotify_events [] d = go d
process_inotify_events (ev ∷ evs) d = inotify_event ev.wd ev d >>= process_inotify_events evs

-- A child wrote its watch descriptor: the first queue of that descriptor is dirty again.
abbrev pub queue_of_fd : ℕ → Watch → Bool
queue_of_fd fd w = is_queue w.kind && w.q_watchfd == fd

unfoldable pub process_pipefd_events : List ℕ → Daemon → Daemon
process_pipefd_events [] d = d
process_pipefd_events (fd ∷ fds) d = process_pipefd_events fds (mark_queue_dirty (queue_of_fd fd) d)

-- What the signal descriptor gives: a short read, SIGCHLD with the children that waitpid returns
-- and whether it then fails with another error than ECHILD, or a signal to stop.
pub data Signal : Type 0 where
  short_read terminate : Signal
  child_exit : List ℕ → Bool → Signal

unfoldable pub forget_pid : ℕ → Watch → Watch
forget_pid pid w = if w.q_pid == pid then record w { q_pid = 0 } else w

unfoldable pub reap : List ℕ → Daemon → Daemon
unfolding forget_pid
reap [] d = d
reap (pid ∷ pids) d = reap pids (record d { watch_list = map (forget_pid pid) d.watch_list })

pub data Handled : Type 0 where
  handled : Daemon → Handled
  done : Daemon → Handled
  dead : Death → Handled

unfoldable pub process_signal_events : Signal → Daemon → Handled
process_signal_events short_read d = handled d
process_signal_events terminate d = done d
process_signal_events (child_exit pids failed) d =
    if failed then done (reap pids d) else handled (reap pids d)

-- `expired` is false where the read fails with EAGAIN.
unfoldable pub process_timerfd_events : Bool → Daemon → Daemon
unfolding touch_timer
process_timerfd_events expired d = if expired then touch_timer d else d
