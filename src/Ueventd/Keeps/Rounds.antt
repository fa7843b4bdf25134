-- ===== src/Ueventd/Keeps/Rounds.antt =====
-- Invariants of the daemon are kept. One round of `main`, its loop and what stands before the loop.
use make_initrd.Prelude.{ℕ, refl, List, [], ◌∷◌, if◌then◌else◌, codes, All}
use make_initrd.Ueventd.Watch.{
  Kind, root_dir, queue_dir, pause_dir, timer_root, timer_dir, Daemon, Run, go, die, Answers,
  watch_path, Status, success, failure,
}
use make_initrd.Ueventd.Timer.{update_timerfd}
use make_initrd.Ueventd.Events.{Handled, handled, done, dead}
use make_initrd.Ueventd.Loop.{
  Ready, fd_handler, handle_ready, dispatch, Round, main_round, main_loop, Startup, startup,
  initial, daemon_main, ◌>>=◌ as bind_handled, open_dir, then_start, in_order, or_exit, and_then,
  and_then_handled,
}
use make_initrd.Ueventd.Keeps.{After, Runs, Closed}
use make_initrd.Ueventd.Keeps.Paths.{keep_path, if_Runs, keep_dirs}
use make_initrd.Ueventd.Keeps.Timers.{keep_update}
use make_initrd.Ueventd.Keeps.Handlers.{keep_ready}

module _ (P : Daemon → Type 0) (c : Closed P) where
  pub then_handled :
      (m : Handled) (f : Daemon → Handled)
      → After P m
      → ((d : Daemon) → P d → After P (f d))
      → After P (bind_handled m f)
  then_handled (handled d) f h k = k d h
  then_handled (done d) f h k = h
  then_handled (dead r) f h k = h

  pub keep_all : (rs : List Ready) (d : Daemon) → P d → After P (handle_ready rs d)
  unfolding handle_ready
  keep_all [] d h = h
  keep_all (r ∷ rs) d h =
      then_handled (fd_handler r d) (handle_ready rs) (keep_ready P c r d h) (keep_all rs)

  pub run_then :
      (r : Run) (f : Daemon → Run)
      → Runs P r
      → ((d : Daemon) → P d → Runs P (f d))
      → After P (and_then r f)
  run_then (go d) f h k = k d h
  run_then (die r) f h k = h

  pub keep_round : (r : Round) (d : Daemon) → P d → After P (main_round r d)
  unfolding main_round
  keep_round r d h = then_handled (handle_ready r.ready d) _ (keep_all r.ready d h) λ d' h'.
      run_then (if d'.timer_changed then update_timerfd r.now r.settime_ok r.timers d' else go d')
        (dispatch r.forks)
        (if_Runs P c d'.timer_changed _ _ (keep_update P c r.now r.settime_ok r.timers d' h') h')
        (c.on_dispatch r.forks)

  pub keep_loop : (rs : List Round) (d : Daemon) → P d → After P (main_loop rs d)
  unfolding main_loop
  keep_loop [] d h = h
  keep_loop (r ∷ rs) d h =
      then_handled (main_round r d) (main_loop rs) (keep_round r d h) (keep_loop rs)

  pub path_or_exit : (p : Status × Daemon) → P p.1 → Runs P (or_exit p)
  unfolding or_exit
  path_or_exit (success, d) h = h
  path_or_exit (failure, d) h = refl

  abbrev pub KeptBy : (Daemon → Run) → Type 0
  KeptBy f = (d : Daemon) → P d → Runs P (f d)

  pub keep_open : (a : Answers) (k : Kind) → KeptBy (open_dir a k)
  unfolding open_dir
  keep_open a k d h =
      path_or_exit (watch_path a (codes ".") k d) (keep_path P c a (codes ".") k d h)

  pub start_then : (r : Run) (f : Daemon → Run) → Runs P r → KeptBy f → Runs P (then_start r f)
  start_then (go d) f h k = k d h
  start_then (die r) f h k = h

  pub keep_order : (fs : List (Daemon → Run)) → All KeptBy fs → KeptBy (in_order fs)
  unfolding in_order
  keep_order [] ks d h = h
  keep_order (f ∷ fs) ks d h = start_then (f d) (in_order fs) (ks.0 d h) (keep_order fs ks.1)

  pub keep_startup : (s : Startup) → KeptBy (startup s)
  unfolding startup
  keep_startup s = keep_order _ (
    keep_open s.pause_answers pause_dir,
    (
      keep_open s.root_answers root_dir,
      (
        keep_open s.timer_answers timer_root,
        (
          keep_dirs P c queue_dir s.queues,
          (
            keep_dirs P c timer_dir s.timer_queues,
            (
              λ d h. keep_update P c s.started s.settime_ok s.timers _ (c.on_pause s.pauses d h),
              tt,
            ),
          ),
        ),
      ),
    ),
  )

  pub begin :
      (r : Run) (f : Daemon → Handled)
      → Runs P r
      → ((d : Daemon) → P d → After P (f d))
      → After P (and_then_handled r f)
  begin (go d) f h k = k d h
  begin (die r) f h k = h

  pub keep_main :
      (s : Startup) (pipe_write : ℕ) (rounds : List Round)
      → P (initial pipe_write)
      → After P (daemon_main s pipe_write rounds)
  unfolding daemon_main
  keep_main s pipe_write rounds h =
      begin (startup s (initial pipe_write)) (main_loop rounds) (keep_startup s _ h)
        (keep_loop rounds)
