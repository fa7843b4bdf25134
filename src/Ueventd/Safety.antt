-- ===== src/Ueventd/Safety.antt =====
-- `dirty_queues` over a whole run of the daemon, and after a dirty queue was unwatched.
use make_initrd.Prelude.{
  ℕ, suc, ◌+◌, ◌≡◌, Bool, true, false, some, List, [], ◌∷◌, arith, ◌==◌, if◌then◌else◌,
}
use mathlib.Core.Path.{subst}
use make_initrd.Ueventd.Watch.{Watch, Daemon, remove_ino, unwatch_path}
use make_initrd.Ueventd.Events.{handled}
use make_initrd.Ueventd.Loop.{Round, main_loop, Startup, daemon_main, epoll_timeout}
use make_initrd.Ueventd.Keeps.{After}
use make_initrd.Ueventd.Keeps.Rounds.{keep_main, keep_loop}
use make_initrd.Ueventd.Balance.{Leak, Leak-Closed, dirty_count}

-- From its start, whatever the kernel answers and in whatever order the descriptors become ready,
-- the daemon keeps `dirty_queues` at or above the number of dirty watches; if it dies, a system
-- call failed, and it is never the check that reports `dirty_queues == 0` beside a dirty queue.
pub daemon-Leak :
    (s : Startup) (pipe_write : ℕ) (rounds : List Round)
    → After (Leak 0) (daemon_main s pipe_write rounds)
unfolding dirty_count
daemon-Leak s pipe_write rounds =
    keep_main (Leak 0) (Leak-Closed 0) s pipe_write rounds (record { counted = omega arith })

-- The first watch of that inode exists and is dirty.
unfoldable pub dirty_ino : ℕ → List Watch → Bool
dirty_ino ino [] = false
dirty_ino ino (w ∷ ws) = if w.q_ino == ino then w.dirty else dirty_ino ino ws

dirty_count-remove_dirty :
    (ino : ℕ) (ws : List Watch)
    → dirty_ino ino ws ≡ true
    → dirty_count (remove_ino ino ws) + 1 ≡ dirty_count ws
unfolding dirty_ino dirty_count remove_ino
dirty_count-remove_dirty ino [] h = ground arith
dirty_count-remove_dirty ino (w ∷ ws) h = ground (arith, dirty_count-remove_dirty ino ws)

unwatch-Leak :
    (k ino : ℕ) (d : Daemon)
    → Leak k d
    → dirty_ino ino d.watch_list ≡ true
    → Leak (suc k) (unwatch_path ino d)
unfolding unwatch_path
unwatch-Leak k ino d h e = record {
  counted = omega (arith, dirty_count-remove_dirty ino d.watch_list e, h.counted);
}

timeout-Leak : (k : ℕ) (d : Daemon) → Leak (suc k) d → epoll_timeout d ≡ some 250
unfolding epoll_timeout
timeout-Leak k d h = ground (arith, h.counted)

-- Once a queue is unwatched while it is dirty, `dirty_queues` never comes back to zero: after any
-- later rounds the daemon still polls with the timeout of 250 milliseconds.
pub unwatch_polls_for_ever :
    (ino : ℕ) (d d' : Daemon) (rounds : List Round)
    → Leak 0 d
    → dirty_ino ino d.watch_list ≡ true
    → main_loop rounds (unwatch_path ino d) ≡ handled d'
    → epoll_timeout d' ≡ some 250
unwatch_polls_for_ever ino d d' rounds h e run = timeout-Leak 0 d' (
    subst (After (Leak 1)) run
      (keep_loop (Leak 1) (Leak-Closed 1) rounds (unwatch_path ino d) (unwatch-Leak 0 ino d h e)))
