-- ===== src/Ueventd/Timer.antt =====
-- features/runtime/src/ueventd/ueventd.c: events that wait for their time in files
-- `<timerdir>/<queue>/<seconds>.<name>`. A move takes the answers of its system calls.
use make_initrd.Prelude.{
  ℕ, ◌+◌, ◌-◌, ◌*◌, ◌%◌, ◌^◌, Bool, true, false, not, ◌&&◌, ◌||◌, Option, none, some, List, [], ◌∷◌,
  ltb, leb, ◌==◌, if◌then◌else◌, CString,
}
use make_initrd.Ueventd.Watch.{
  Watch, Daemon, Death, fatal, Run, go, die, Dirent, is_reg, Answers, success, failure, is_queue,
  queue_dir, watch_path, find_queue_watch, mark_queue_dirty, skipped,
}
use make_initrd.Prelude.{str_eq}

abbrev pub ullong_max : ℕ
ullong_max = 2 ^ 64 - 1

-- isspace in the C locale.
abbrev pub is_space : ℕ → Bool
is_space c = c == 32 || (leb 9 c && leb c 13)

abbrev pub is_digit : ℕ → Bool
is_digit c = leb b'0' c && leb c b'9'

skip_space : CString → CString
skip_space [] = []
skip_space (c ∷ cs) = if is_space c then skip_space cs else c ∷ cs

-- The digits at the front, added to what was read, and what follows them.
unfoldable pub digits_from : ℕ → CString → ℕ × CString
digits_from acc [] = (acc, [])
digits_from acc (c ∷ cs) =
    if is_digit c then digits_from (acc * 10 + (c - b'0')) cs else (acc, c ∷ cs)

-- `errno` (a value above ULLONG_MAX) and a character other than a dot give 0.
due_of : Bool → ℕ × CString → ℕ
due_of negative (v, []) = 0
due_of negative (v, c ∷ cs) =
    if ltb ullong_max v || not (c == b'.') then 0 else if negative then (2 ^ 64 - v) % 2 ^ 64 else v

-- strtoull consumes nothing where no digit follows the sign, and then `end == name`.
due_digits : Bool → CString → ℕ
unfolding digits_from due_of
due_digits negative [] = 0
due_digits negative (c ∷ cs) = if is_digit c then due_of negative (digits_from 0 (c ∷ cs)) else 0

due_signed : CString → ℕ
unfolding due_digits
due_signed [] = 0
due_signed (c ∷ cs) =
    if c == b'-'
    then due_digits true cs
    else if c == b'+'
    then due_digits false cs
    else due_digits false (c ∷ cs)

unfoldable pub parse_timer_due : CString → ℕ
unfolding skip_space due_signed
parse_timer_due name = due_signed (skip_space name)

-- `strchr(name, '.') + 1`.
unfoldable pub after_dot : CString → Option CString
after_dot [] = none
after_dot (c ∷ cs) = if c == b'.' then some cs else after_dot cs

pub data Rename : Type 0 where
  renamed no_entry rename_failed : Rename

-- mkdir succeeds or finds the directory, for the queue and for its `.tmp`.
pub record Move : Type 0 where
  pub mkdir_queue : Bool
  pub mkdir_tmp : Bool
  pub answers : Answers
  pub rename : Rename

unfoldable pub ensure_queue_dir : CString → Move → Daemon → Run
unfolding watch_path find_queue_watch
ensure_queue_dir name m d =
    if not (m.mkdir_queue && m.mkdir_tmp)
    then die fatal
    else elim (find_queue_watch name d.watch_list) [
      | some w ↦ go d
      | none ↦
          let (status, d') = watch_path m.answers name queue_dir d in
          elim status [ failure ↦ die fatal | success ↦ go d' ]
    ]

abbrev pub named : CString → Watch → Bool
named name w = is_queue w.kind && str_eq w.q_name name

unfoldable pub after_rename : Rename → CString → Daemon → Daemon
after_rename renamed name d = mark_queue_dirty (named name) d
after_rename _ name d = d

unfoldable pub move_named : Option CString → CString → Move → Daemon → Run
unfolding ensure_queue_dir after_rename
move_named none queue m d = go d
move_named (some []) queue m d = go d
move_named (some (c ∷ cs)) queue m d = elim (ensure_queue_dir queue m d) [
  | die r ↦ die r
  | go d' ↦ go (after_rename m.rename queue d')
]

unfoldable pub move_timer_event : CString → CString → Move → Daemon → Run
unfolding move_named after_dot
move_timer_event queue timer_name m d = move_named (after_dot timer_name) queue m d

-- The scan of a timer directory carries `next`.
pub data Scan : Type 0 where
  scanned : ℕ → Daemon → Scan
  stopped : Death → Scan

abbrev pub hidden : CString → Bool
hidden [] = false
hidden (c ∷ cs) = c == b'.'

unfoldable pub scan_due : ℕ → CString → CString → ℕ → Move → ℕ → Daemon → Scan
scan_due now queue name due m next d =
    if due == 0
    then scanned next d
    else if ltb now due
    then scanned (if ltb due next then due else next) d
    else elim (move_timer_event queue name m d) [ go d' ↦ scanned next d' | die r ↦ stopped r ]

unfoldable pub scan_entry : ℕ → CString → Dirent → Move → ℕ → Daemon → Scan
unfolding scan_due
scan_entry now queue ent m next d =
    if hidden ent.d_name || not (is_reg ent.d_type)
    then scanned next d
    else scan_due now queue ent.d_name (parse_timer_due ent.d_name) m next d

infixl 5 ◌>>=◌
abbrev pub ◌>>=◌ : Scan → (ℕ → Daemon → Scan) → Scan
scanned n d >>= f = f n d
stopped r >>= f = stopped r

unfoldable pub scan_queue : ℕ → CString → List (Dirent × Move) → ℕ → Daemon → Scan
scan_queue now queue [] next d = scanned next d
scan_queue now queue ((ent, m) ∷ ents) next d =
    scan_entry now queue ent m next d >>= scan_queue now queue ents

abbrev pub Queues : Type 0
Queues = List (Dirent × List (Dirent × Move))

unfoldable pub scan_timers : ℕ → Queues → ℕ → Daemon → Scan
scan_timers now [] next d = scanned next d
scan_timers now ((ent, files) ∷ queues) next d =
    (if skipped ent then scanned next d else scan_queue now ent.d_name files next d)
    >>= scan_timers now queues

-- `settime_ok` is the answer of timerfd_settime.
unfoldable pub finish : Bool → Scan → Run
finish settime_ok (stopped r) = die r
finish settime_ok (scanned next d) =
    if settime_ok
    then go (record d { timer_changed = false; armed = if next == ullong_max then 0 else next })
    else die fatal

unfoldable pub update_timerfd : ℕ → Bool → Queues → Daemon → Run
unfolding finish
update_timerfd now settime_ok queues d = finish settime_ok (scan_timers now queues ullong_max d)
