-- ===== src/Ueventd/Dispatch.antt =====
-- What the dispatch loop starts.
use make_initrd.Prelude.{
  ℕ, suc, ◌+◌, ◌-◌, ◌≤◌, ◌≡◌, refl, true, false, List, [], ◌∷◌, arith, if◌then◌else◌, Bool-cases,
  inl, inr, pos→ne_zero, ◌%◌, ◌^◌,
}
use make_initrd.Ueventd.Watch.{Watch, Daemon, go}
use make_initrd.Ueventd.Loop.{
  Fork, child, fork_failed, Dispatched, dispatched, passed, spawn_worker, dispatch_loop,
  store_dispatch, dispatch,
}
use make_initrd.Ueventd.Balance.{Leak, dirty_count}

-- A queue for which a worker was asked: it is clean, and has the worker's process where there is one.
abbrev pub asked : Fork → Watch → Watch
asked (child pid) w = record w { dirty = false; q_pid = pid }
asked fork_failed w = record w { dirty = false; q_pid = 0 }

abbrev pub next_session : ℕ → ℕ
next_session s = (s + 1) % 2 ^ 64

-- A watch before and after the loop: one that is no queue, is clean, is paused or has a worker is
-- as it was; for any other a worker was asked in the next session.
pub record Launched (forks : ℕ → Fork) (s : ℕ) (w w' : Watch) : Type 0 where
  pub idle : passed w ≡ true → w' ≡ w
  pub started : passed w ≡ false → w' ≡ asked (forks (next_session s)) w
  pub settled : passed w' ≡ true

-- The sessions are counted over the watches for which a worker is asked.
abbrev pub AllLaunched : (ℕ → Fork) → ℕ → List Watch → List Watch → Type 0
AllLaunched forks s [] [] = Unit
AllLaunched forks s [] (w' ∷ ws') = ⊥
AllLaunched forks s (w ∷ ws) [] = ⊥
AllLaunched forks s (w ∷ ws) (w' ∷ ws') =
    Launched forks s w w' × AllLaunched forks (if passed w then s else next_session s) ws ws'

pub eligible : List Watch → ℕ
eligible [] = 0
eligible (w ∷ ws) = if passed w then eligible ws else suc (eligible ws)

record Outcome (forks : ℕ → Fork) (s : ℕ) (ws : List Watch) (n : ℕ) (r : Dispatched) : Type 0 where
  ws' : List Watch
  n' : ℕ
  s' : ℕ
  result : r ≡ dispatched ws' n' s'
  launched : AllLaunched forks s ws ws'
  left : n' + eligible ws ≡ n

asked-spawn :
    (f : Fork) (w : Watch) → record w { dirty = false; q_pid = spawn_worker f } ≡ asked f w
unfolding spawn_worker
asked-spawn (child pid) w = refl
asked-spawn fork_failed w = refl

Launched-start :
    (forks : ℕ → Fork) (w : Watch) (s : ℕ)
    → passed w ≡ false
    → Launched forks s w (record w { dirty = false; q_pid = spawn_worker (forks (next_session s)) })
unfolding passed
Launched-start forks w s h = record {
  idle = λ e. cc;
  started = λ e. asked-spawn (forks (next_session s)) w;
  settled = ground arith;
}

Launched-idle : (forks : ℕ → Fork) (s : ℕ) (w : Watch) → passed w ≡ true → Launched forks s w w
Launched-idle forks s w h = record { idle = λ e. refl; started = λ e. cc; settled = h }

dirty-eligible : (w : Watch) → passed w ≡ false → w.dirty ≡ true
unfolding passed
dirty-eligible w h = ground arith

loop_lem :
    (forks : ℕ → Fork) (ws : List Watch) (n s : ℕ)
    → dirty_count ws ≤ n
    → Outcome forks s ws n (dispatch_loop forks ws n s)
unfolding dispatch_loop dirty_count eligible
loop_lem forks [] n s h = record {
  ws' = [];
  n' = n;
  s' = s;
  result = refl;
  launched = tt;
  left = omega arith;
}
loop_lem forks (w ∷ ws) n s h = elim (Bool-cases (passed w)) [
  | inl pass ↦
      let o = loop_lem forks ws n s (omega arith) in
      record {
        ws' = w ∷ o.ws';
        n' = o.n';
        s' = o.s';
        result = rw (pass, o.result);
        launched = (Launched-idle forks s w pass, rw pass o.launched);
        left = rw pass o.left;
      }
  | inr chosen ↦
      let count : 1 + dirty_count ws ≤ n = rw (dirty-eligible w chosen) at h in
      let s1 = (s + 1) % 2 ^ 64 in
      let o = loop_lem forks ws (n - 1) s1 (omega arith) in
      record {
        ws' = record w { dirty = false; q_pid = spawn_worker (forks s1) } ∷ o.ws';
        n' = o.n';
        s' = o.s';
        result = rw (chosen, pos→ne_zero n (omega arith), o.result);
        launched = (Launched-start forks w s chosen, rw chosen o.launched);
        left = rw chosen (omega (arith, o.left));
      }
]

-- In a state that counts its dirty watches the dispatch loop ends without an error. Each dirty, idle
-- queue that is not paused is cleaned and has the process of the fork of its session, where the
-- sessions follow one another from that of the daemon; where that fork failed it is clean all the same
-- and has no process. Every other watch is as it was, `dirty_queues` is less by the number of those
-- queues, and no watch is left that a second pass would start.
pub dispatch_launches :
    (forks : ℕ → Fork) (d : Daemon)
    → Leak 0 d
    → (d' : Daemon) × (dispatch forks d ≡ go d')
      × AllLaunched forks d.session d.watch_list d'.watch_list
      × (d'.dirty_queues + eligible d.watch_list ≡ d.dirty_queues)
unfolding dispatch store_dispatch
dispatch_launches forks d h =
    let o = loop_lem forks d.watch_list d.dirty_queues d.session (omega (arith, h.counted)) in
    (
      record d { watch_list = o.ws'; dirty_queues = o.n'; session = o.s' },
      rw o.result,
      o.launched,
      o.left,
    )
