-- ===== src/Ueventd/Retry.antt =====
-- Events between the daemon and the worker of a queue.
use make_initrd.Prelude.{
  ℕ, ◌≡◌, refl, Bool, true, false, not, ◌&&◌, ◌||◌, List, [], ◌∷◌, arith, if◌then◌else◌, CString,
  str_eq, str_eq_iff, any, all, if_cases,
}
use make_initrd.Ueventd.Watch.{Watch, Daemon, Dirent, mark_first, mark_queue_dirty}
use make_initrd.Ueventd.Events.{queue_of_fd, process_pipefd_events}
use make_initrd.Ueventd.Worker.{
  empty_directory, replace_entry, moved, move_files, process_events, Exit,
}

abbrev pub has_name : CString → List Dirent → Bool
has_name name = any (λ e. str_eq e.d_name name)

-- An event file of that name waits in the directory.
abbrev pub has_event : CString → List Dirent → Bool
has_event name = any (λ e. moved e && str_eq e.d_name name)

has_name-replace :
    (name : CString) (ent : Dirent) (dst : List Dirent)
    → has_name name (replace_entry ent dst) ≡ (str_eq ent.d_name name || has_name name dst)
unfolding replace_entry
has_name-replace name ent [] = ground arith
has_name-replace name ent (e ∷ es) = ground (
  arith,
  has_name-replace name ent es,
  str_eq_iff e.d_name ent.d_name,
  str_eq_iff e.d_name name,
  str_eq_iff ent.d_name name,
)

move-has_name :
    (name : CString) (src dst : List Dirent)
    → has_name name (move_files src dst).1 ≡ (has_event name src || has_name name dst)
unfolding move_files
move-has_name name [] dst = refl
move-has_name name (ent ∷ src) dst = ground (
  arith,
  move-has_name name src (if moved ent then replace_entry ent dst else dst),
  has_name-replace name ent dst,
)

move-kept : (src dst : List Dirent) → all (λ e. not (moved e)) (move_files src dst).0 ≡ true
unfolding move_files
move-kept [] dst = refl
move-kept (ent ∷ src) dst =
    ground (arith, move-kept src (if moved ent then replace_entry ent dst else dst))

-- The worker takes every event file out of the queue directory; each then has an entry in the
-- directory that the handler gets, beside what was there, and nothing else has.
pub move_files_lem :
    (name : CString) (src dst : List Dirent)
    → (all (λ e. not (moved e)) (move_files src dst).0 ≡ true)
      × (has_name name (move_files src dst).1 ≡ (has_event name src || has_name name dst))
move_files_lem name src dst = (move-kept src dst, move-has_name name src dst)

-- A queue of that descriptor is on the list, and it is dirty.
abbrev pub dirty_fd : ℕ → List Watch → Bool
dirty_fd fd = any (λ w. queue_of_fd fd w && w.dirty)

abbrev pub on_list : ℕ → List Watch → Bool
on_list fd = any (queue_of_fd fd)

dirty-mark :
    (fd : ℕ) (ws : List Watch)
    → on_list fd ws ≡ true
    → dirty_fd fd (mark_first (queue_of_fd fd) ws) ≡ true
unfolding mark_first
dirty-mark fd [] h = h
dirty-mark fd (w ∷ ws) h = ground (arith, dirty-mark fd ws)

-- The worker writes the descriptor of its queue where the handler leaves events, and else nothing.
written_lem :
    (queue : Watch) (handler : List Dirent → List Dirent) (src dst : List Dirent)
    → let e = process_events queue handler src dst in
      e.written ≡ (if empty_directory e.dstdir then [] else queue.q_watchfd ∷ [])
unfolding process_events
written_lem queue handler src dst =
    if_cases
      (λ (e : Exit). e.written ≡ (if empty_directory e.dstdir then [] else queue.q_watchfd ∷ []))
      (empty_directory (move_files src dst).1) _ _ (λ none_came. rw none_came refl)
      (λ some_came. refl)

reads :
    (fd : ℕ) (empty : Bool) (fds : List ℕ) (d : Daemon)
    → fds ≡ (if empty then [] else fd ∷ [])
    → on_list fd d.watch_list ≡ true
    → (empty ≡ true → process_pipefd_events fds d ≡ d)
      × (empty ≡ false → dirty_fd fd (process_pipefd_events fds d).watch_list ≡ true)
unfolding process_pipefd_events mark_queue_dirty
reads fd true fds d e l = (λ h. rw e refl, λ h. cc)
reads fd false fds d e l = (λ h. cc, λ h. rw e (dirty-mark fd d.watch_list l))

-- The daemon reads from the pipe what the worker of a queue wrote, and still watches that queue's
-- descriptor. Where the handler left events in its directory, a queue of that descriptor is dirty
-- again; where the directory is empty, the daemon is as it was.
pub left_events_retried :
    (queue : Watch) (handler : List Dirent → List Dirent) (src dst : List Dirent) (d : Daemon)
    → on_list queue.q_watchfd d.watch_list ≡ true
    → let e = process_events queue handler src dst in
      let d' = process_pipefd_events e.written d in
      (empty_directory e.dstdir ≡ true → d' ≡ d)
      × (empty_directory e.dstdir ≡ false → dirty_fd queue.q_watchfd d'.watch_list ≡ true)
left_events_retried queue handler src dst d l =
    let e = process_events queue handler src dst in
    reads queue.q_watchfd (empty_directory e.dstdir) e.written d (written_lem queue handler src dst)
      l
