-- ===== src/Tests/Copies.antt =====
-- The theorems on the queue and on the installation, at two files and system calls that succeed.
use make_initrd.Prelude.{
  ℕ, suc, ◌≡◌, refl, true, false, some, [], ◌∷◌, ◌==◌, if◌then◌else◌, any, codes, str_eq,
}
use make_initrd.Put.Queue.{File, Store, new_file, tfind, enqueue_item, dequeue_item, cut, no_stat}
use make_initrd.Put.Linked.{Linked, distinct, Owned}
use make_initrd.Put.Search.{find_src, unique}
use make_initrd.Put.Front.{Keeps, waiting}
use make_initrd.Put.Refines.{Enqueues, enqueue_item_lem, dequeue_item_lem}
use make_initrd.Put.Copy.{Calls, Options, Answer, Chowned, Moved}
use make_initrd.Put.Rounds.{Machine, Collector, install_all, sort_dirs}
use make_initrd.Put.Installs.{count, Counted}
use make_initrd.Put.Settled.{Settled, install_all-Settled}
use make_initrd.Put.Path.{Links, target, canonicalize}
use make_initrd.Put.Resolved.{Comes, canonicalize-Comes}
use make_initrd.Put.Parents.{shortest_first, times, sort_dirs_lem}

-- The directory "/a" and the file "/a/b", which the queue links.
abbrev two_files : ℕ → File
two_files a =
    if a == 0
    then record (new_file (codes "/a")) {
      next = some 1;
      dst = codes "/a";
      stat = record no_stat { st_mode = 16877 };
    }
    else record (new_file (codes "/a/b")) {
      prev = some 0;
      dst = codes "/a/b";
      stat = record no_stat { st_mode = 33188; st_size = 3 };
    }

abbrev two_waiting : Store
two_waiting = record {
  at = two_files;
  used = 2;
  inqueue = some 0;
  queue_nr = 2;
  queued_files = (codes "/a", 0) ∷ (codes "/a/b", 1) ∷ [];
  files = [];
  tree_files_nr = 0;
}

two_waiting-Keeps : Keeps two_waiting (0 ∷ 1 ∷ [])
unfolding Linked distinct tfind find_src unique str_eq
two_waiting-Keeps = record {
  linked = (refl, refl, (refl, refl, refl));
  own = refl;
  below = refl;
  number = refl;
  found = λ p. refl;
  paths = refl;
}

-- The parent of "/c/d", beside an exclusion that it does not match.
enqueue_item_lem_example :
    Enqueues
      (any (λ m. m (cut (codes "/c/d") (some 2))) (str_eq (codes "/x") ∷ []))
      (cut (codes "/c/d") (some 2))
      two_waiting
      (0 ∷ 1 ∷ [])
      (enqueue_item (str_eq (codes "/x") ∷ []) (codes "/c/d") (some 2) two_waiting)
enqueue_item_lem_example =
    enqueue_item_lem (str_eq (codes "/x") ∷ []) (codes "/c/d") (some 2) two_waiting (0 ∷ 1 ∷ [])
      two_waiting-Keeps

dequeue_item_lem_example :
    Keeps (dequeue_item (some 1) two_waiting) (0 ∷ [])
    × (waiting (dequeue_item (some 1) two_waiting) (0 ∷ []) ≡ waiting two_waiting (0 ∷ []))
dequeue_item_lem_example = dequeue_item_lem two_waiting (0 ∷ []) 1 [] two_waiting-Keeps

-- The state is the number of calls; a copy moves two bytes at a time.
abbrev all_well : Calls ℕ
all_well = record {
  remove = λ p n. (Answer.ok, suc n);
  mkdir = λ p n. (Answer.ok, suc n);
  mknod = λ p a b n. (Answer.ok, suc n);
  make_symlink = λ p q n. (Answer.ok, suc n);
  mkfifo = λ p a n. (Answer.ok, suc n);
  mksock = λ p n. (Answer.ok, suc n);
  exists = λ p n. false;
  open_read = λ p n. (Answer.ok, suc n);
  creat = λ p a n. (Answer.ok, suc n);
  hard_link = λ p q n. (Answer.ok, suc n);
  lchown = λ p a b n. (Chowned.changed, suc n);
  chmod = λ p a n. (true, suc n);
  copy_file_range = λ a n. (Moved.moved 2, suc n);
  sendfile = λ a n. (Moved.moved 2, suc n);
  rewind = λ n. suc n;
  read_bytes = λ n. (some [], suc n);
  write_bytes = λ bs n. (some 1, suc n);
}

abbrev into_tree : Options
into_tree = record { destdir = codes "/t"; force = false; prefix = [] }

abbrev both : Collector
both = record { dirs = 0 ∷ []; non_dirs = 1 ∷ []; hardlinks = [] }

abbrev before_start : Machine ℕ
before_start = record {
  disk = record { fs = 0; use_copy_file_range = true; use_sendfile = true };
  at = two_files;
  installed = 0;
}

both-Owned : Owned (0 ∷ 1 ∷ [])
unfolding distinct
both-Owned = refl

none-Counted : Counted (0 ∷ 1 ∷ []) before_start
unfolding count
none-Counted = refl

install_all-Settled_example :
    Settled (0 ∷ 1 ∷ []) (install_all all_well into_tree 3 2 both before_start)
install_all-Settled_example =
    install_all-Settled all_well into_tree (0 ∷ 1 ∷ []) both-Owned both before_start
      ((refl, tt), (refl, tt), tt) none-Counted

-- "/a" leads to "b" and "/b" leads to "a".
abbrev circle : Links
circle = record {
  readlink = λ p. if str_eq p (codes "/a") then target (codes "b") else target (codes "a");
  is_dir = λ p. true;
}

canonicalize-Comes_example : Comes (canonicalize circle (codes "/") (codes "/a/c"))
canonicalize-Comes_example = canonicalize-Comes circle (codes "/") (codes "/a/c")

sort_dirs_lem_example :
    (shortest_first two_files (sort_dirs two_files (1 ∷ 0 ∷ [])) ≡ true)
    × ((c : ℕ) → times c (sort_dirs two_files (1 ∷ 0 ∷ [])) ≡ times c (1 ∷ 0 ∷ []))
sort_dirs_lem_example = sort_dirs_lem two_files (1 ∷ 0 ∷ [])
