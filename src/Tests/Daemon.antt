-- ===== src/Tests/Daemon.antt =====
-- The theorems on ueventd at a queue directory "udev" with events in it.
use make_initrd.Prelude.{
  ℕ, ◌+◌, ◌≡◌, refl, Bool, true, false, not, some, [], ◌∷◌, map, codes, arith, all, ◌||◌,
}
use make_initrd.Ueventd.Watch.{
  go, Watch, Daemon, queue_dir, Dirent, dt_dir, dt_reg, Answers, added, unwatch_path, apply_pause,
}
use make_initrd.Ueventd.Events.{process_pipefd_events}
use make_initrd.Ueventd.Loop.{
  Startup, Round, pipe, child, daemon_main, main_loop, dispatch, epoll_timeout,
}
use make_initrd.Ueventd.Keeps.{After}
use make_initrd.Ueventd.Balance.{Leak, dirty_count}
use make_initrd.Ueventd.Dispatch.{AllLaunched, eligible, dispatch_launches}
use make_initrd.Ueventd.Safety.{daemon-Leak, dirty_ino, unwatch_polls_for_ever}
use make_initrd.Ueventd.Pause.{all_paused, with_pause, apply_pause_lem}
use make_initrd.Ueventd.Worker.{moved, move_files, process_events, empty_directory}
use make_initrd.Ueventd.Retry.{has_name, has_event, dirty_fd, move_files_lem, left_events_retried}

abbrev answers : ℕ → Bool → Answers
answers n e = record { add = added n; st_ino = some (n + 10); is_empty = e }

abbrev udev : Dirent
udev = record { d_name = codes "udev"; d_type = dt_dir }

abbrev event : Dirent
event = record { d_name = codes "event.1"; d_type = dt_reg }

abbrev boot : Startup
boot = record {
  pause_answers = answers 1 true;
  root_answers = answers 2 true;
  timer_answers = answers 3 true;
  queues = (udev, answers 4 false) ∷ [];
  timer_queues = [];
  pauses = [];
  started = 100;
  settime_ok = true;
  timers = [];
}

abbrev one_round : Round
one_round = record {
  ready = pipe (4 ∷ []) ∷ [];
  now = 200;
  settime_ok = true;
  timers = [];
  forks = λ s. child (s + 1000);
}

daemon-Leak_example : After (Leak 0) (daemon_main boot 7 (one_round ∷ one_round ∷ []))
daemon-Leak_example = daemon-Leak boot 7 (one_round ∷ one_round ∷ [])

abbrev watch : Watch
watch = record {
  kind = queue_dir;
  dirty = true;
  paused = false;
  q_watchfd = 4;
  q_parentfd = some 7;
  q_ino = 14;
  q_pid = 0;
  q_name = codes "udev";
}

abbrev daemon : Daemon
daemon = record {
  watch_list = watch ∷ [];
  pause_all = false;
  dirty_queues = 1;
  timer_changed = false;
  session = 0;
  pipe_write = 7;
  armed = 0;
}

daemon_counted : Leak 0 daemon
unfolding dirty_count
daemon_counted = record { counted = omega arith }

dispatch_launches_example :
    (d' : Daemon) × (dispatch (λ s. child (s + 1000)) daemon ≡ go d')
    × AllLaunched (λ s. child (s + 1000)) daemon.session (watch ∷ []) d'.watch_list
    × (d'.dirty_queues + eligible (watch ∷ []) ≡ 1)
dispatch_launches_example = dispatch_launches (λ s. child (s + 1000)) daemon daemon_counted

watched_dirty : dirty_ino 14 (watch ∷ []) ≡ true
unfolding dirty_ino
watched_dirty = refl

unwatch_polls_for_ever_example : epoll_timeout (unwatch_path 14 daemon) ≡ some 250
unfolding main_loop
unwatch_polls_for_ever_example =
    unwatch_polls_for_ever 14 daemon (unwatch_path 14 daemon) [] daemon_counted watched_dirty refl

apply_pause_lem_example : apply_pause (udev ∷ []) daemon ≡ record daemon {
  pause_all = all_paused (udev ∷ []);
  watch_list = map (with_pause (udev ∷ [])) daemon.watch_list;
}
apply_pause_lem_example = apply_pause_lem (udev ∷ []) daemon

move_files_lem_example :
    (all (λ e. not (moved e)) (move_files (event ∷ udev ∷ []) []).0 ≡ true)
    × (has_name (codes "event.1") (move_files (event ∷ udev ∷ []) []).1
        ≡ (has_event (codes "event.1") (event ∷ udev ∷ []) || has_name (codes "event.1") []))
move_files_lem_example = move_files_lem (codes "event.1") (event ∷ udev ∷ []) []

-- The handler leaves what it is given.
left_events_retried_example :
    let e = process_events watch (λ es. es) (event ∷ []) [] in
    let d' = process_pipefd_events e.written daemon in
    (empty_directory e.dstdir ≡ true → d' ≡ daemon)
    × (empty_directory e.dstdir ≡ false → dirty_fd watch.q_watchfd d'.watch_list ≡ true)
left_events_retried_example = left_events_retried watch (λ es. es) (event ∷ []) [] daemon refl
