-- ===== src/Put/Queue.antt =====
-- utils/initrd-put/queue.c and tree.c. The files are objects in a store, at numbers that stand for
-- their addresses, and `prev`, `next` and `hardlink_target` point into it. `tsearch`, `tfind` and
-- `tdelete` of the C library keep a set of files by their paths in the order of strcmp. Memory is not
-- reused, so `free_file` does nothing here.
use make_initrd.Prelude.{
  ℕ, suc, ◌-◌, ◌^◌, Bool, true, false, ◌||◌, Option, none, some, List, [], ◌∷◌, ◌==◌, ltb,
  if◌then◌else◌, any, take, CString, str_eq,
}

-- `struct stat`, as far as it is read.
pub record Stat : Type 0 where
  pub st_dev : ℕ
  pub st_ino : ℕ
  pub st_mode : ℕ
  pub st_nlink : ℕ
  pub st_uid : ℕ
  pub st_gid : ℕ
  pub st_size : ℕ

pub record File : Type 0 where
  pub prev : Option ℕ
  pub next : Option ℕ
  pub stat : Stat
  pub src : CString
  pub dst : CString
  pub symlink : Option CString
  pub hardlink_target : Option ℕ
  pub recursive : Bool
  pub installed : Bool

-- Objects at their addresses; from `used` on the addresses are free.
pub record Store : Type 0 where
  pub at : ℕ → File
  pub used : ℕ
  pub inqueue : Option ℕ
  pub queue_nr : ℕ
  pub queued_files : List (CString × ℕ)
  pub files : List (CString × ℕ)
  pub tree_files_nr : ℕ

unfoldable pub modify : ℕ → (File → File) → (ℕ → File) → ℕ → File
modify a f at b = if b == a then f (at b) else at b

-- strcmp a b < 0
unfoldable pub str_lt : CString → CString → Bool
str_lt cs [] = false
str_lt [] (b ∷ bs) = true
str_lt (a ∷ cs) (b ∷ bs) = let rest = str_lt cs bs in if a == b then rest else ltb a b

unfoldable pub tfind : CString → List (CString × ℕ) → Option ℕ
tfind path [] = none
tfind path ((p, a) ∷ t) = let rest = tfind path t in if str_eq p path then some a else rest

-- A path that is not there yet.
unfoldable pub insert : CString → ℕ → List (CString × ℕ) → List (CString × ℕ)
unfolding str_lt
insert path a [] = (path, a) ∷ []
insert path a ((p, b) ∷ t) =
    let rest = insert path a t in if str_lt path p then (path, a) ∷ (p, b) ∷ t else (p, b) ∷ rest

unfoldable pub tdelete : CString → List (CString × ℕ) → List (CString × ℕ)
tdelete path [] = []
tdelete path ((p, a) ∷ t) =
    let rest = tdelete path t in if str_eq p path then rest else (p, a) ∷ rest

-- A pointer that is not null.
abbrev pub is_some : Option ℕ → Bool
is_some none = false
is_some (some a) = true

unfoldable pub is_path_queued : CString → Store → Bool
unfolding tfind
is_path_queued path s = is_some (tfind path s.queued_files)

unfoldable pub is_path_added : CString → Store → Bool
unfolding tfind is_path_queued
is_path_added path s = is_some (tfind path s.files) || is_path_queued path s

-- What the tree holds at the path after `tsearch` is the file itself, or the one that was there.
unfoldable pub tree_add_file : ℕ → Store → Bool × Store
unfolding tfind insert
tree_add_file a s = elim (tfind (s.at a).src s.files) [
  | none ↦ (
    true,
    record s { files = insert (s.at a).src a s.files; tree_files_nr = suc s.tree_files_nr },
  )
  | some b ↦
      (b == a, record s { tree_files_nr = if b == a then suc s.tree_files_nr else s.tree_files_nr })
]

abbrev pub no_stat : Stat
no_stat = record {
  st_dev = 0;
  st_ino = 0;
  st_mode = 0;
  st_nlink = 0;
  st_uid = 0;
  st_gid = 0;
  st_size = 0;
}

-- xcalloc and xstrdup
abbrev pub new_file : CString → File
new_file src = record {
  prev = none;
  next = none;
  stat = no_stat;
  src = src;
  dst = [];
  symlink = none;
  hardlink_target = none;
  recursive = false;
  installed = false;
}

abbrev pub path_max : ℕ
path_max = 4096

-- The path, or its first bytes where a length is given.
unfoldable pub cut : CString → Option ℕ → CString
cut str none = str
cut str (some n) = take (if ltb path_max n then path_max else n) str

-- The file or null, or the exit at a head of the queue that has something before it.
pub data Enqueued : Type 0 where
  enqueued : Option ℕ → Store → Enqueued
  bad_queue_head : Enqueued

unfoldable pub set_next : Option ℕ → Option ℕ → (ℕ → File) → ℕ → File
unfolding modify
set_next none n at = at
set_next (some q) n at = modify q (λ f. record f { next = n }) at

unfoldable pub set_prev : Option ℕ → Option ℕ → (ℕ → File) → ℕ → File
unfolding modify
set_prev none p at = at
set_prev (some r) p at = modify r (λ f. record f { prev = p }) at

abbrev pub has_prev : Option ℕ → (ℕ → File) → Bool
has_prev none at = false
has_prev (some head) at = is_some (at head).prev

unfoldable pub push_front : CString → Store → Enqueued
unfolding modify insert set_prev
push_front src s =
    if has_prev s.inqueue s.at
    then bad_queue_head
    else enqueued (some s.used) (record s {
      at =
          modify s.used (λ f. record (new_file src) { next = s.inqueue })
            (set_prev s.inqueue (some s.used) s.at);
      used = suc s.used;
      inqueue = some s.used;
      queue_nr = suc s.queue_nr;
      queued_files = insert src s.used s.queued_files;
    })

module _ (exclude_match : List (CString → Bool)) where
  unfoldable pub enqueue_src : CString → Store → Enqueued
  unfolding tfind is_path_added push_front
  enqueue_src src s =
      let pushed = push_front src s in
      if any (λ m. m src) exclude_match then enqueued none s else elim (tfind src s.queued_files) [
        | some a ↦ enqueued (some a) s
        | none ↦ if is_path_added src s then enqueued none s else pushed
      ]

  unfoldable pub enqueue_item : CString → Option ℕ → Store → Enqueued
  unfolding enqueue_src cut
  enqueue_item str len s = enqueue_src (cut str len) s

-- Takes the file out of the list between its neighbours.
unfoldable pub unlink : ℕ → (ℕ → File) → ℕ → File
unfolding set_next set_prev
unlink a at = set_prev (at a).next (at a).prev (set_next (at a).prev (at a).next at)

abbrev pub is_at : Option ℕ → ℕ → Bool
is_at none a = false
is_at (some b) a = b == a

unfoldable pub dequeue_item : Option ℕ → Store → Store
unfolding unlink tdelete
dequeue_item none s = s
dequeue_item (some a) s = record s {
  at = unlink a s.at;
  inqueue = if is_at s.inqueue a then (s.at a).next else s.inqueue;
  queue_nr = if s.queue_nr == 0 then 2 ^ 64 - 1 else s.queue_nr - 1;
  queued_files = tdelete (s.at a).src s.queued_files;
}
