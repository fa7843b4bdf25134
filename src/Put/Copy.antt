-- ===== src/Put/Copy.antt =====
-- utils/initrd-put/initrd-put.c: the creation of one file. The system calls are the fields of `Calls`;
-- each is given what it acts on and the state of the file systems, and gives its answer and the state
-- after it. A call that is interrupted is made again, so what is given is the last answer. A loop that
-- copies has the fuel `rounds`.
use make_initrd.Prelude.{
  ℕ, zero, suc, ◌+◌, ◌-◌, ◌/◌, ◌%◌, Bool, false, ◌&&◌, ◌||◌, Option, none, some, List, [], ◌∷◌,
  ◌++◌, ◌==◌, ltb, leb, if◌then◌else◌, length, take, drop, get_or, CString, codes, str_eq,
}
use make_initrd.Put.Queue.{File, path_max}

pub data Kind : Type 0 where
  block_device character_device directory fifo link regular socket unknown : Kind

-- st_mode & S_IFMT
unfoldable pub kind : ℕ → Kind
kind st_mode =
    let t = st_mode / 4096 % 16 in
    if t == 6
    then block_device
    else if t == 2
    then character_device
    else if t == 4
    then directory
    else if t == 1
    then fifo
    else if t == 10
    then link
    else if t == 8
    then regular
    else if t == 12
    then socket
    else unknown

-- 0, EEXIST, ENOENT, an error for which a link is copied (EXDEV, EPERM, EACCES, EOPNOTSUPP, EMLINK),
-- or another one.
pub data Answer : Type 0 where
  ok eexist enoent no_link failed : Answer

-- The bytes that were moved, an error that says that the call is not supported, or another one.
pub data Moved : Type 0 where
  moved : ℕ → Moved
  unsupported broken : Moved

-- What lchown answers: 0, EPERM or another error.
pub data Chowned : Type 0 where
  changed eperm refused : Chowned

pub record Calls (W : Type 0) : Type 1 where
  pub remove : CString → W → Answer × W
  pub mkdir : CString → W → Answer × W
  pub mknod : CString → ℕ → ℕ → W → Answer × W
  pub make_symlink : CString → CString → W → Answer × W
  pub mkfifo : CString → ℕ → W → Answer × W
  pub mksock : CString → W → Answer × W
  pub exists : CString → W → Bool
  pub open_read : CString → W → Answer × W
  pub creat : CString → ℕ → W → Answer × W
  pub hard_link : CString → CString → W → Answer × W
  pub lchown : CString → ℕ → ℕ → W → Chowned × W
  pub chmod : CString → ℕ → W → Bool × W
  -- Between the two open files.
  pub copy_file_range : ℕ → W → Moved × W
  pub sendfile : ℕ → W → Moved × W
  pub rewind : W → W
  pub read_bytes : W → Option (List ℕ) × W
  pub write_bytes : List ℕ → W → Option ℕ × W

pub record World (W : Type 0) : Type 0 where
  pub fs : W
  pub use_copy_file_range : Bool
  pub use_sendfile : Bool

-- The label `end`, a return that leaves the file for later, an exit, or rounds that do not suffice.
pub data Attempt (W : Type 0) : Type 0 where
  to_end : World W → Attempt W
  later : World W → Attempt W
  exits : Attempt W
  unfinished : Attempt W

pub record Options : Type 0 where
  pub destdir : CString
  pub force : Bool
  pub prefix : CString

-- The prefix is taken off where a slash or the end of the string follows it; an empty one is none.
unfoldable pub strip_prefix : CString → CString → CString
strip_prefix [] path = path
strip_prefix (p ∷ ps) path =
    let n = length (p ∷ ps) in
    if leb n (length path)
      && ((get_or path n 0 == b'/' || get_or path n 0 == 0) && str_eq (take n path) (p ∷ ps))
    then drop n path
    else path

abbrev pub symlink_target : CString → CString → CString
symlink_target prefix target = elim (strip_prefix prefix target) [
  | [] ↦ if str_eq target [] then [] else codes "/"
  | c ∷ cs ↦ c ∷ cs
]

-- The path does not fit the buffer.
abbrev pub is_long : Options → CString → Bool
is_long o dst = leb (suc path_max) (length o.destdir + length dst)

module _ {W : Type 0} (sys : Calls W) (o : Options) where
  abbrev pub world : World W → W → World W
  world w fs = record w { fs = fs }

  -- What mkdir and the like answer.
  unfoldable pub after_make : World W → Answer × W → Attempt W
  after_make w (ok, fs) = to_end (world w fs)
  after_make w (eexist, fs) = to_end (world w fs)
  after_make w (enoent, fs) = later (world w fs)
  after_make w (no_link, fs) = exits
  after_make w (failed, fs) = exits

  -- Nothing written is an error too.
  unfoldable pub after_write :
      (List ℕ → World W → Attempt W) → List ℕ → World W → Option ℕ → Attempt W
  after_write next bytes w none = exits
  after_write next bytes w (some n) =
      let rest = next (drop n bytes) w in if n == 0 then exits else rest

  -- `written < ret`
  unfoldable pub write_all : ℕ → List ℕ → World W → Attempt W
  unfolding after_write
  write_all zero bytes w = unfinished
  write_all (suc rounds) [] w = to_end w
  write_all (suc rounds) (b ∷ bytes) w =
      let (answer, fs) = sys.write_bytes (b ∷ bytes) w.fs in
      after_write (write_all rounds) (b ∷ bytes) (world w fs) answer

  -- What was read has been written. The loop goes on while `len` is above 0, and ℕ stops there.
  unfoldable pub after_chunk : (ℕ → World W → Attempt W) → ℕ → ℕ → Attempt W → Attempt W
  after_chunk next len n (to_end w) =
      let rest = next (len - n) w in if ltb n len then rest else to_end w
  after_chunk next len n (later w) = later w
  after_chunk next len n exits = exits
  after_chunk next len n unfinished = unfinished

  unfoldable pub after_read : (ℕ → World W → Attempt W) → ℕ → World W → Option (List ℕ) → Attempt W
  unfolding write_all after_chunk
  after_read next len w none = exits
  after_read next len w (some []) = to_end w
  after_read next len w (some (b ∷ bs)) =
      after_chunk next len (length (b ∷ bs)) (write_all (suc (length (b ∷ bs))) (b ∷ bs) w)

  unfoldable pub read_write : ℕ → ℕ → World W → Attempt W
  unfolding after_read
  read_write zero len w = unfinished
  read_write (suc rounds) len w =
      let (answer, fs) = sys.read_bytes w.fs in
      after_read (read_write rounds) len (world w fs) answer

  unfoldable pub from_start : World W → World W
  from_start w = world w (sys.rewind w.fs)

  -- A loop of copy_file_range or sendfile, and what to do where the call is not supported.
  unfoldable pub after_move :
      (ℕ → World W → Attempt W) → (W → Attempt W) → ℕ → World W → Moved × W → Attempt W
  after_move next fallback len w (unsupported, fs) = fallback fs
  after_move next fallback len w (broken, fs) = exits
  after_move next fallback len w (moved n, fs) =
      let rest = next (len - n) (world w fs) in
      if ltb n len && ltb 0 n then rest else to_end (world w fs)

  unfoldable pub move_loop : (ℕ → W → Moved × W) → (W → Attempt W) → ℕ → ℕ → World W → Attempt W
  unfolding after_move
  move_loop call fallback zero len w = unfinished
  move_loop call fallback (suc rounds) len w =
      after_move (move_loop call fallback rounds) fallback len w (call len w.fs)

  unfoldable pub fallback_readwrite : ℕ → World W → Attempt W
  unfolding read_write from_start
  fallback_readwrite size w = read_write (suc size) size (from_start w)

  unfoldable pub fallback_sendfile : ℕ → World W → Attempt W
  unfolding move_loop fallback_readwrite from_start
  fallback_sendfile size w =
      let sent =
        move_loop sys.sendfile
          (λ fs. fallback_readwrite size (record w { fs = fs; use_sendfile = false })) (suc size)
          size (from_start w) in
      let plain = fallback_readwrite size w in if w.use_sendfile then sent else plain

  unfoldable pub copy_content : ℕ → World W → Attempt W
  unfolding move_loop fallback_sendfile
  copy_content size w =
      let copied =
        move_loop sys.copy_file_range
          (λ fs. fallback_sendfile size (record w { fs = fs; use_copy_file_range = false }))
          (suc size) size w in
      let sent = fallback_sendfile size w in if w.use_copy_file_range then copied else sent

  unfoldable pub after_creat : ℕ → World W → Answer × W → Attempt W
  unfolding copy_content
  after_creat size w (ok, fs) = copy_content size (world w fs)
  after_creat size w (enoent, fs) = later (world w fs)
  after_creat size w (_, fs) = exits

  unfoldable pub after_open : CString → File → World W → Answer × W → Attempt W
  unfolding after_creat
  after_open path f w (ok, fs) = after_creat f.stat.st_size w (sys.creat path f.stat.st_mode fs)
  after_open path f w (_, fs) = exits

  unfoldable pub make_regular : CString → File → World W → Attempt W
  unfolding after_open
  make_regular path f w =
      let created = after_open path f w (sys.open_read f.src w.fs) in
      if sys.exists path w.fs then to_end w else created

  unfoldable pub make_link : CString → File → World W → Attempt W
  unfolding after_make strip_prefix
  make_link path f w = elim f.symlink [
    | none ↦ later w
    | some target ↦ after_make w (sys.make_symlink (symlink_target o.prefix target) path w.fs)
  ]

  unfoldable pub make_kind : Kind → CString → File → World W → Attempt W
  unfolding after_make make_regular make_link
  make_kind directory path f w = after_make w (sys.mkdir path w.fs)
  make_kind block_device path f w = after_make w (sys.mknod path f.stat.st_mode f.stat.st_dev w.fs)
  make_kind character_device path f w =
      after_make w (sys.mknod path f.stat.st_mode f.stat.st_dev w.fs)
  make_kind link path f w = make_link path f w
  make_kind fifo path f w = after_make w (sys.mkfifo path f.stat.st_mode w.fs)
  make_kind socket path f w = after_make w (sys.mksock path w.fs)
  make_kind regular path f w = make_regular path f w
  make_kind unknown path f w = exits

  -- With `force` what is there goes first, but for a directory.
  unfoldable pub after_remove : Kind → CString → File → World W → Answer × W → Attempt W
  unfolding make_kind
  after_remove k path f w (ok, fs) = make_kind k path f (world w fs)
  after_remove k path f w (enoent, fs) = make_kind k path f (world w fs)
  after_remove k path f w (_, fs) = exits

  unfoldable pub clear_and_make : Kind → CString → File → World W → Attempt W
  unfolding after_remove
  clear_and_make directory path f w = make_kind directory path f w
  clear_and_make k path f w =
      let cleared = after_remove k path f w (sys.remove path w.fs) in
      let kept = make_kind k path f w in if o.force then cleared else kept

  -- `install_file` from the test of `installed` on, without the flag and the counter.
  unfoldable pub install_attempt : File → World W → Attempt W
  unfolding clear_and_make kind
  install_attempt f w =
      let tried = clear_and_make (kind f.stat.st_mode) (o.destdir ++ f.dst) f w in
      if is_long o f.dst then exits else tried
