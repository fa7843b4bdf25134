-- ===== src/Ueventd/Keeps/Handlers.antt =====
-- Invariants of the daemon are kept. The handlers of the descriptors.
use make_initrd.Prelude.{
  ℕ, ◌≡◌, refl, Bool, true, false, Option, none, some, List, [], ◌∷◌, if◌then◌else◌,
}
use make_initrd.Ueventd.Watch.{
  Kind, root_dir, queue_dir, pause_dir, timer_root, timer_dir, Watch, Daemon, Run, go, die,
  watch_dirs, ◌>>=◌ as bind_run,
}
use make_initrd.Ueventd.Events.{
  InotifyEvent, find_wd, by_kind, on_watch, inotify_event, process_inotify_events,
  process_pipefd_events, Signal, short_read, terminate, child_exit, Handled, process_signal_events,
  process_timerfd_events,
}
use make_initrd.Ueventd.Loop.{Ready, inotify, signal, pipe, timer, fd_handler}
use make_initrd.Ueventd.Keeps.{After, Runs, Closed}
use make_initrd.Ueventd.Keeps.Paths.{if_Runs, keep_dirs}

module _ (P : Daemon → Type 0) (c : Closed P) where
  pub then_run :
      (r : Run) (f : Daemon → Run)
      → Runs P r
      → ((d : Daemon) → P d → Runs P (f d))
      → Runs P (bind_run r f)
  then_run (go d) f h k = k d h
  then_run (die r) f h k = h

  pub keep_kind :
      (k : Kind) (fd : ℕ) (w : Watch) (ev : InotifyEvent) (d : Daemon)
      → w.kind ≡ k
      → find_wd fd d.watch_list ≡ some w
      → P d
      → Runs P (by_kind k fd ev d)
  unfolding by_kind
  keep_kind root_dir fd w ev d k e h =
      if_Runs P c ev.create _ (go d) (keep_dirs P c queue_dir ev.listing d h) h
  keep_kind timer_root fd w ev d k e h =
      then_run (if ev.create then watch_dirs timer_dir ev.listing d else go d) _
        (if_Runs P c ev.create _ (go d) (keep_dirs P c timer_dir ev.listing d h) h)
        (λ d' h'. c.on_timer true d'.armed d' h')
  keep_kind pause_dir fd w ev d k e h = c.on_pause ev.pauses d h
  keep_kind timer_dir fd w ev d k e h = c.on_timer true d.armed d h
  keep_kind queue_dir fd w ev d k e h = c.on_event fd w d e k h

  pub keep_watch :
      (o : Option Watch) (fd : ℕ) (ev : InotifyEvent) (d : Daemon)
      → find_wd fd d.watch_list ≡ o
      → P d
      → Runs P (on_watch o fd ev d)
  unfolding on_watch
  keep_watch none fd ev d e h = h
  keep_watch (some w) fd ev d e h =
      if_Runs P c ev.delete_self _ _ (c.on_unwatch w.q_ino d h)
        (keep_kind w.kind fd w ev d refl e h)

  pub keep_event :
      (o : Option ℕ) (ev : InotifyEvent) (d : Daemon) → P d → Runs P (inotify_event o ev d)
  unfolding inotify_event
  keep_event none ev d h = h
  keep_event (some fd) ev d h = keep_watch (find_wd fd d.watch_list) fd ev d refl h

  pub keep_inotify :
      (evs : List InotifyEvent) (d : Daemon) → P d → Runs P (process_inotify_events evs d)
  unfolding process_inotify_events
  keep_inotify [] d h = h
  keep_inotify (ev ∷ evs) d h =
      then_run (inotify_event ev.wd ev d) (process_inotify_events evs) (keep_event ev.wd ev d h)
        (keep_inotify evs)

  pub keep_pipe : (fds : List ℕ) (d : Daemon) → P d → P (process_pipefd_events fds d)
  unfolding process_pipefd_events
  keep_pipe [] d h = h
  keep_pipe (fd ∷ fds) d h = keep_pipe fds _ (c.on_fd fd d h)

  pub if_After : (b : Bool) (x y : Handled) → After P x → After P y → After P (if b then x else y)
  if_After true x y h k = h
  if_After false x y h k = k

  pub keep_signal : (s : Signal) (d : Daemon) → P d → After P (process_signal_events s d)
  unfolding process_signal_events
  keep_signal short_read d h = h
  keep_signal terminate d h = h
  keep_signal (child_exit pids broken) d h =
      if_After broken _ _ (c.on_reap pids d h) (c.on_reap pids d h)

  pub keep_expired : (b : Bool) (d : Daemon) → P d → P (process_timerfd_events b d)
  unfolding process_timerfd_events
  keep_expired true d h = c.on_timer true d.armed d h
  keep_expired false d h = h

  pub keep_ready : (r : Ready) (d : Daemon) → P d → After P (fd_handler r d)
  unfolding fd_handler
  keep_ready (inotify evs) d h = keep_inotify evs d h
  keep_ready (signal s) d h = keep_signal s d h
  keep_ready (pipe fds) d h = keep_pipe fds d h
  keep_ready (timer b) d h = keep_expired b d h
