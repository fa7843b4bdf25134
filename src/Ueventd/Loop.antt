-- ===== src/Ueventd/Loop.antt =====
-- features/runtime/src/ueventd/ueventd.c: one round of the loop of `main`. The environment gives
-- the descriptors that are ready, the contents of the timer directory and the answers of fork.
use make_initrd.Prelude.{
  ℕ, ◌+◌, ◌-◌, ◌%◌, ◌^◌, Bool, false, not, ◌||◌, Option, none, some, codes, List, [], ◌∷◌, ◌==◌,
  if◌then◌else◌,
}
use make_initrd.Ueventd.Watch.{
  Watch, Daemon, fatal, bug, Run, go, die, is_queue, Status, success, failure, Dirent, Answers,
  watch_path, watch_dirs, apply_pause, Kind, pause_dir, root_dir, timer_root, queue_dir, timer_dir,
}
use make_initrd.Ueventd.Timer.{Queues, update_timerfd}
use make_initrd.Ueventd.Events.{
  InotifyEvent, Signal, Handled, handled, done, dead, process_inotify_events, process_pipefd_events,
  process_signal_events, process_timerfd_events,
}

pub data Ready : Type 0 where
  inotify : List InotifyEvent → Ready
  signal : Signal → Ready
  pipe : List ℕ → Ready
  timer : Bool → Ready

abbrev pub of_run : Run → Handled
of_run (go d) = handled d
of_run (die r) = dead r

unfoldable pub fd_handler : Ready → Daemon → Handled
fd_handler (inotify evs) d = of_run (process_inotify_events evs d)
fd_handler (signal s) d = process_signal_events s d
fd_handler (pipe fds) d = handled (process_pipefd_events fds d)
fd_handler (timer expired) d = handled (process_timerfd_events expired d)

infixl 5 ◌>>=◌
abbrev pub ◌>>=◌ : Handled → (Daemon → Handled) → Handled
handled d >>= f = f d
done d >>= f = done d
dead r >>= f = dead r

unfoldable pub handle_ready : List Ready → Daemon → Handled
handle_ready [] d = handled d
handle_ready (r ∷ rs) d = fd_handler r d >>= handle_ready rs

-- The child that fork creates, or an error.
pub data Fork : Type 0 where
  child : ℕ → Fork
  fork_failed : Fork

-- `spawn_worker` returns 0 where fork fails.
unfoldable pub spawn_worker : Fork → ℕ
spawn_worker (child pid) = pid
spawn_worker fork_failed = 0

-- The watches that the dispatch loop passes over.
unfoldable pub passed : Watch → Bool
passed w = not (is_queue w.kind) || (not w.dirty || (not (w.q_pid == 0) || w.paused))

-- The watch list, `dirty_queues` and `session` after the dispatch loop.
pub data Dispatched : Type 0 where
  dispatched : List Watch → ℕ → ℕ → Dispatched
  inconsistent : Dispatched

abbrev pub prepend : Watch → Dispatched → Dispatched
prepend w (dispatched ws n s) = dispatched (w ∷ ws) n s
prepend w inconsistent = inconsistent

-- `forks` gives the answer of fork in each session.
unfoldable pub dispatch_loop : (ℕ → Fork) → List Watch → ℕ → ℕ → Dispatched
unfolding spawn_worker
dispatch_loop forks [] n s = dispatched [] n s
dispatch_loop forks (w ∷ ws) n s =
    let pass = passed w in
    let s' = if pass then s else (s + 1) % 2 ^ 64 in
    let rest = dispatch_loop forks ws (if pass then n else n - 1) s' in
    if pass
    then prepend w rest
    else if n == 0
    then inconsistent
    else prepend (record w { dirty = false; q_pid = spawn_worker (forks s') }) rest

unfoldable pub store_dispatch : Daemon → Dispatched → Run
store_dispatch d (dispatched ws n s) =
    go (record d { watch_list = ws; dirty_queues = n; session = s })
store_dispatch d inconsistent = die bug

unfoldable pub dispatch : (ℕ → Fork) → Daemon → Run
unfolding store_dispatch
dispatch forks d = store_dispatch d (dispatch_loop forks d.watch_list d.dirty_queues d.session)

-- What the environment does in one round.
pub record Round : Type 0 where
  pub ready : List Ready
  pub now : ℕ
  pub settime_ok : Bool
  pub timers : Queues
  pub forks : ℕ → Fork

abbrev pub and_then : Run → (Daemon → Run) → Handled
and_then (die r) f = dead r
and_then (go d) f = of_run (f d)

unfoldable pub main_round : Round → Daemon → Handled
main_round r d = handle_ready r.ready d >>= λ d'.
    and_then (if d'.timer_changed then update_timerfd r.now r.settime_ok r.timers d' else go d')
      (dispatch r.forks)

-- The timeout of epoll_wait: 250 milliseconds, or none for ever.
unfoldable pub epoll_timeout : Daemon → Option ℕ
epoll_timeout d = if d.dirty_queues == 0 then none else some 250

-- The loop of `main` over the rounds of the environment.
unfoldable pub main_loop : List Round → Daemon → Handled
main_loop [] d = handled d
main_loop (r ∷ rs) d = main_round r d >>= main_loop rs

-- What the calls before the loop are answered.
pub record Startup : Type 0 where
  pub pause_answers : Answers
  pub root_answers : Answers
  pub timer_answers : Answers
  pub queues : List (Dirent × Answers)
  pub timer_queues : List (Dirent × Answers)
  pub pauses : List Dirent
  pub started : ℕ
  pub settime_ok : Bool
  pub timers : Queues

unfoldable pub or_exit : Status × Daemon → Run
or_exit (success, d) = go d
or_exit (failure, d) = die fatal

abbrev pub initial : ℕ → Daemon
initial pipe_write = record {
  watch_list = [];
  pause_all = false;
  dirty_queues = 0;
  timer_changed = false;
  session = 0;
  pipe_write = pipe_write;
  armed = 0;
}

unfoldable pub open_dir : Answers → Kind → Daemon → Run
unfolding or_exit
open_dir a kind d = or_exit (watch_path a (codes ".") kind d)

abbrev pub then_start : Run → (Daemon → Run) → Run
then_start (go d) f = f d
then_start (die r) f = die r

unfoldable pub in_order : List (Daemon → Run) → Daemon → Run
in_order [] d = go d
in_order (f ∷ fs) d = then_start (f d) (in_order fs)

-- The calls of `main` before its loop.
unfoldable pub startup : Startup → Daemon → Run
startup s = in_order (
    open_dir s.pause_answers pause_dir
    ∷ open_dir s.root_answers root_dir
    ∷ open_dir s.timer_answers timer_root
    ∷ watch_dirs queue_dir s.queues
    ∷ watch_dirs timer_dir s.timer_queues
    ∷ (λ d. update_timerfd s.started s.settime_ok s.timers (apply_pause s.pauses d))
    ∷ [])

abbrev pub and_then_handled : Run → (Daemon → Handled) → Handled
and_then_handled (go d) f = f d
and_then_handled (die r) f = dead r

unfoldable pub daemon_main : Startup → ℕ → List Round → Handled
daemon_main s pipe_write rounds =
    and_then_handled (startup s (initial pipe_write)) (main_loop rounds)
