-- ===== src/Ueventd/Balance.antt =====
-- `dirty_queues` against the dirty watches of the list.
use make_initrd.Prelude.{
  ℕ, ◌+◌, ◌≤◌, ◌≡◌, refl, Bool, true, false, ◌||◌, List, [], ◌∷◌, map, arith, Bool-cases, inl, inr,
  CString, codes, str_eq, if_both, pos→ne_zero, ◌-◌,
}
use make_initrd.Ueventd.Watch.{
  Kind, Watch, Daemon, Dirent, bump, push_watch, remove_ino, unwatch_path, mark_first, clean_first,
  mark_queue_dirty, apply_pause, pause_loop, pause_entry, unpause, skipped,
}
use make_initrd.Ueventd.Events.{forget_pid, reap}
use make_initrd.Ueventd.Loop.{
  Fork, Dispatched, dispatched, inconsistent, passed, prepend, dispatch_loop, store_dispatch,
  dispatch,
}
use make_initrd.Ueventd.Keeps.{Closed, Runs}

abbrev pub one_if : Bool → ℕ
one_if true = 1
one_if false = 0

unfoldable pub dirty_count : List Watch → ℕ
dirty_count [] = 0
dirty_count (w ∷ ws) = one_if w.dirty + dirty_count ws

-- `dirty_queues` counts at least `k` more than the dirty watches.
pub record Leak (k : ℕ) (d : Daemon) : Type 0 where
  pub counted : dirty_count d.watch_list + k ≤ d.dirty_queues

pub dirty_count-mark :
    (t : Watch → Bool) (ws : List Watch)
    → dirty_count (mark_first t ws) ≡ bump (clean_first t ws) (dirty_count ws)
unfolding dirty_count mark_first clean_first
dirty_count-mark t [] = refl
dirty_count-mark t (w ∷ ws) = ground (arith, dirty_count-mark t ws)

dirty_count-remove : (ino : ℕ) (ws : List Watch) → dirty_count (remove_ino ino ws) ≤ dirty_count ws
unfolding dirty_count remove_ino
dirty_count-remove ino [] = omega arith
dirty_count-remove ino (w ∷ ws) = ground (arith, dirty_count-remove ino ws)

dirty_count-map :
    (f : Watch → Watch) (ws : List Watch)
    → ((w : Watch) → (f w).dirty ≡ w.dirty)
    → dirty_count (map f ws) ≡ dirty_count ws
unfolding dirty_count
dirty_count-map f [] h = refl
dirty_count-map f (w ∷ ws) h = ground (arith, h w, dirty_count-map f ws h)

dirty-pause : (all : Bool) (name : CString) (w : Watch) → (pause_entry all name w).dirty ≡ w.dirty
unfolding pause_entry
dirty-pause all name w = ground arith

dirty-forget : (pid : ℕ) (w : Watch) → (forget_pid pid w).dirty ≡ w.dirty
unfolding forget_pid
dirty-forget pid w = ground arith

pause_loop-Leak : (k : ℕ) (ents : List Dirent) (d : Daemon) → Leak k d → Leak k (pause_loop ents d)
unfolding pause_loop
pause_loop-Leak k [] d h = h
pause_loop-Leak k (ent ∷ ents) d h =
    let all = str_eq ent.d_name (codes ".all") || d.pause_all in
    let next = record d {
      pause_all = all;
      watch_list = map (pause_entry all ent.d_name) d.watch_list;
    } in
    let paused : Leak k next = record {
      counted =
          rw
            (dirty_count-map (pause_entry all ent.d_name) d.watch_list (dirty-pause all ent.d_name))
            h.counted;
    } in
    if_both (Leak k) (skipped ent) _ _ (pause_loop-Leak k ents d h)
      (if_both (Leak k) all _ _ paused (pause_loop-Leak k ents next paused))

apply_pause-Leak :
    (k : ℕ) (ents : List Dirent) (d : Daemon) → Leak k d → Leak k (apply_pause ents d)
unfolding apply_pause
apply_pause-Leak k ents d h = pause_loop-Leak k ents _ (record {
  counted = rw (dirty_count-map unpause d.watch_list (unfold unpause in λ w. refl)) h.counted;
})

reap-Leak : (k : ℕ) (pids : List ℕ) (d : Daemon) → Leak k d → Leak k (reap pids d)
unfolding reap
reap-Leak k [] d h = h
reap-Leak k (pid ∷ pids) d h = reap-Leak k pids _ (record {
  counted = rw (dirty_count-map (forget_pid pid) d.watch_list (dirty-forget pid)) h.counted;
})

abbrev Counted : ℕ → Dispatched → Type 0
Counted k (dispatched ws n s) = dirty_count ws + k ≤ n
Counted k inconsistent = ⊥

prepend-Counted :
    (k : ℕ) (w : Watch) (r : Dispatched) → Counted (one_if w.dirty + k) r → Counted k (prepend w r)
unfolding dirty_count
prepend-Counted k w (dispatched ws n s) h = omega arith
prepend-Counted k w inconsistent h = h

prepend_clean :
    (k : ℕ) (w : Watch) (pid : ℕ) (r : Dispatched)
    → Counted k r
    → Counted k (prepend (record w { dirty = false; q_pid = pid }) r)
unfolding dirty_count
prepend_clean k w pid (dispatched ws n s) h = omega arith
prepend_clean k w pid inconsistent h = h

dirty-not_passed : (w : Watch) → passed w ≡ false → w.dirty ≡ true
unfolding passed
dirty-not_passed w h = ground arith

dispatch_loop-Counted :
    (k : ℕ) (forks : ℕ → Fork) (ws : List Watch) (n s : ℕ)
    → dirty_count ws + k ≤ n
    → Counted k (dispatch_loop forks ws n s)
unfolding dispatch_loop dirty_count
dispatch_loop-Counted k forks [] n s h = h
dispatch_loop-Counted k forks (w ∷ ws) n s h = elim (Bool-cases (passed w)) [
  | inl pass ↦ rw pass (
      prepend-Counted k w _ (dispatch_loop-Counted (one_if w.dirty + k) forks ws n s (omega arith)))
  | inr chosen ↦
      let dirty = dirty-not_passed w chosen in
      let room : 1 + dirty_count ws + k ≤ n = rw dirty at h in
      rw (chosen, pos→ne_zero n (omega arith))
        (prepend_clean k w _ _ (dispatch_loop-Counted k forks ws (n - 1) _ (omega arith)))
]

dispatch-Leak :
    (k : ℕ) (forks : ℕ → Fork) (d : Daemon) → Leak k d → Runs (Leak k) (dispatch forks d)
unfolding dispatch
dispatch-Leak k forks d h =
    stored (dispatch_loop forks d.watch_list d.dirty_queues d.session)
      (dispatch_loop-Counted k forks d.watch_list d.dirty_queues d.session h.counted)
  where
    stored : (r : Dispatched) → Counted k r → Runs (Leak k) (store_dispatch d r)
    stored (dispatched ws n s) e = record { counted = e }
    stored inconsistent e = absurd e

push_watch-Leak :
    (k : ℕ) (wfd ino : ℕ) (e : Bool) (name : CString) (kind : Kind) (d : Daemon)
    → Leak k d
    → Leak k (push_watch wfd ino e name kind d)
unfolding push_watch dirty_count
push_watch-Leak k wfd ino e name kind d h = record { counted = ground (arith, h.counted) }

mark-Leak : (k : ℕ) (t : Watch → Bool) (d : Daemon) → Leak k d → Leak k (mark_queue_dirty t d)
unfolding mark_queue_dirty
mark-Leak k t d h = record { counted = ground (arith, h.counted, dirty_count-mark t d.watch_list) }

-- Every handler, round and the startup keep the surplus of `dirty_queues`.
pub Leak-Closed : (k : ℕ) → Closed (Leak k)
unfolding unwatch_path
Leak-Closed k = record {
  on_push = push_watch-Leak k;
  on_unwatch =
      λ ino d h. record { counted = omega (arith, dirty_count-remove ino d.watch_list, h.counted) };
  on_named = λ name. mark-Leak k _;
  on_fd = λ fd. mark-Leak k _;
  on_event = λ fd w d e q. mark-Leak k _ d;
  on_pause = apply_pause-Leak k;
  on_reap = reap-Leak k;
  on_timer = λ changed armed d h. record { counted = h.counted };
  on_dispatch = dispatch-Leak k;
}
