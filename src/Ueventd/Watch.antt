-- ===== src/Ueventd/Watch.antt =====
-- features/runtime/src/ueventd/ueventd.c: the watch list and the operations on it, and `is_dot_dir`
-- of path.c. What the kernel answers to a call comes as an argument. A watch is created with one
-- of the flags F_ROOT_DIR, F_QUEUE_DIR, F_PAUSE_DIR, F_TIMER_ROOT and F_TIMER_DIR and keeps it:
-- that flag is its `kind`; F_DIRTY and F_PAUSED are Booleans. The int `dirty_queues` is a number
-- with no upper limit. `rd_fatal` and `exit` are the result `die`. Log lines are left out.
use make_initrd.Prelude.{
  ℕ, ◌+◌, Bool, true, false, not, ◌&&◌, ◌||◌, Option, none, some, List, [], ◌∷◌, map, ◌==◌,
  if◌then◌else◌, CString, codes, str_eq,
}

pub data Kind : Type 0 where
  root_dir queue_dir pause_dir timer_root timer_dir : Kind

pub record Watch : Type 0 where
  pub kind : Kind
  pub dirty : Bool
  pub paused : Bool
  pub q_watchfd : ℕ
  pub q_parentfd : Option ℕ
  pub q_ino : ℕ
  pub q_pid : ℕ
  pub q_name : CString

pub record Daemon : Type 0 where
  pub watch_list : List Watch
  pub pause_all : Bool
  pub dirty_queues : ℕ
  pub timer_changed : Bool
  pub session : ℕ
  pub pipe_write : ℕ
  -- what the timer descriptor is set to, 0 when it is disarmed
  pub armed : ℕ

pub data Death : Type 0 where
  fatal bug : Death

pub data Run : Type 0 where
  go : Daemon → Run
  die : Death → Run

infixl 5 ◌>>=◌
abbrev pub ◌>>=◌ : Run → (Daemon → Run) → Run
go d >>= f = f d
die r >>= f = die r

pub data FileType : Type 0 where
  dt_dir dt_reg dt_other : FileType

pub record Dirent : Type 0 where
  pub d_name : CString
  pub d_type : FileType

abbrev pub is_dir : FileType → Bool
is_dir dt_dir = true
is_dir _ = false

abbrev pub is_reg : FileType → Bool
is_reg dt_reg = true
is_reg _ = false

unfoldable pub is_dot_dir : Dirent → Bool
is_dot_dir ent =
    is_dir ent.d_type && (str_eq ent.d_name (codes ".") || str_eq ent.d_name (codes ".."))

-- What inotify_add_watch answers under IN_MASK_CREATE: a descriptor, EEXIST, or another error.
pub data AddWatch : Type 0 where
  added : ℕ → AddWatch
  exists : AddWatch
  failed : AddWatch

-- The answers to the calls of one `watch_path`: inotify_add_watch, stat, `empty_directory`.
pub record Answers : Type 0 where
  pub add : AddWatch
  pub st_ino : Option ℕ
  pub is_empty : Bool

-- `watch_path` returns 0, or a negative number.
pub data Status : Type 0 where
  success failure : Status

abbrev pub is_queue : Kind → Bool
is_queue queue_dir = true
is_queue _ = false

abbrev pub is_timer : Kind → Bool
is_timer timer_dir = true
is_timer _ = false

abbrev pub bump : Bool → ℕ → ℕ
bump true n = n + 1
bump false n = n

-- The part of `watch_path` behind a successful `stat`.
unfoldable pub push_watch : ℕ → ℕ → Bool → CString → Kind → Daemon → Daemon
push_watch wfd ino is_empty name kind d =
    let is_dirty = is_queue kind && not is_empty in
    let new : Watch = record {
      kind = kind;
      dirty = is_dirty;
      paused = d.pause_all;
      q_watchfd = wfd;
      q_parentfd = if is_queue kind then some d.pipe_write else none;
      q_ino = ino;
      q_pid = 0;
      q_name = name;
    } in
    record d {
      watch_list = new ∷ d.watch_list;
      dirty_queues = bump is_dirty d.dirty_queues;
      timer_changed = (is_timer kind && not is_empty) || d.timer_changed;
    }

unfoldable pub after_stat : ℕ → Option ℕ → Bool → CString → Kind → Daemon → Status × Daemon
after_stat wfd none is_empty name kind d = (failure, d)
after_stat wfd (some ino) is_empty name kind d = (success, push_watch wfd ino is_empty name kind d)

unfoldable pub after_add : AddWatch → Answers → CString → Kind → Daemon → Status × Daemon
unfolding after_stat
after_add exists a name kind d = (success, d)
after_add failed a name kind d = (failure, d)
after_add (added wfd) a name kind d = after_stat wfd a.st_ino a.is_empty name kind d

unfoldable pub watch_path : Answers → CString → Kind → Daemon → Status × Daemon
unfolding after_add push_watch
watch_path a name kind d = after_add a.add a name kind d

-- Takes the first watch of that inode off the list.
unfoldable pub remove_ino : ℕ → List Watch → List Watch
remove_ino ino [] = []
remove_ino ino (w ∷ ws) = if w.q_ino == ino then ws else w ∷ remove_ino ino ws

unfoldable pub unwatch_path : ℕ → Daemon → Daemon
unwatch_path ino d = record d { watch_list = remove_ino ino d.watch_list }

unfoldable pub find_queue_watch : CString → List Watch → Option Watch
find_queue_watch name [] = none
find_queue_watch name (w ∷ ws) =
    if is_queue w.kind && str_eq w.q_name name then some w else find_queue_watch name ws

-- `mark_queue_dirty` on the first watch that the test accepts.
unfoldable pub mark_first : (Watch → Bool) → List Watch → List Watch
mark_first test [] = []
mark_first test (w ∷ ws) = if test w then record w { dirty = true } ∷ ws else w ∷ mark_first test ws

unfoldable pub clean_first : (Watch → Bool) → List Watch → Bool
clean_first test [] = false
clean_first test (w ∷ ws) = if test w then not w.dirty else clean_first test ws

unfoldable pub mark_queue_dirty : (Watch → Bool) → Daemon → Daemon
unfolding mark_first clean_first
mark_queue_dirty test d = record d {
  watch_list = mark_first test d.watch_list;
  dirty_queues = bump (clean_first test d.watch_list) d.dirty_queues;
}

-- The directory entries that the loops over a directory look at.
unfoldable pub skipped : Dirent → Bool
unfolding is_dot_dir
skipped ent = not (is_dir ent.d_type) || is_dot_dir ent

-- The directory `queue/pause` names the paused queues; `.all` pauses every queue.
unfoldable pub pause_entry : Bool → CString → Watch → Watch
pause_entry all name w =
    if is_queue w.kind && (all || str_eq name w.q_name) then record w { paused = true } else w

unfoldable pub unpause : Watch → Watch
unpause w = record w { paused = false }

unfoldable pub pause_loop : List Dirent → Daemon → Daemon
unfolding skipped pause_entry
pause_loop [] d = d
pause_loop (ent ∷ ents) d =
    let all = str_eq ent.d_name (codes ".all") || d.pause_all in
    let next = record d {
      pause_all = all;
      watch_list = map (pause_entry all ent.d_name) d.watch_list;
    } in
    let skip = pause_loop ents d in
    let rest = pause_loop ents next in if skipped ent then skip else if all then next else rest

unfoldable pub apply_pause : List Dirent → Daemon → Daemon
unfolding pause_loop unpause
apply_pause ents d =
    pause_loop ents (record d { pause_all = false; watch_list = map unpause d.watch_list })

-- `watch_queues` and `watch_timer_queues` differ in the directory and in the flag.
unfoldable pub watch_dirs : Kind → List (Dirent × Answers) → Daemon → Run
unfolding skipped watch_path
watch_dirs kind [] d = go d
watch_dirs kind ((ent, a) ∷ ents) d =
    let (status, d') = watch_path a ent.d_name kind d in
    let skip = watch_dirs kind ents d in
    let rest = watch_dirs kind ents d' in
    if skipped ent then skip else elim status [ failure ↦ die fatal | success ↦ rest ]
