-- ===== src/Put/Rounds.antt =====
-- utils/initrd-put/initrd-put.c: the installation of the files of the tree, in rounds, by one worker; the
-- threads of the other branch, which install side by side, are not modelled.
use make_initrd.Prelude.{
  ℕ, zero, suc, Bool, true, not, ◌&&◌, ◌||◌, Option, none, some, List, [], ◌∷◌, ◌++◌, ◌==◌, ltb,
  if◌then◌else◌, length, CString, str_eq,
}
use mathlib.Core.List.{reverse}
use make_initrd.Put.Queue.{File, modify, str_lt}
use make_initrd.Put.Copy.{
  Kind, directory, regular, link, kind, Answer, ok, eexist, enoent, no_link, failed, Chowned,
  changed, eperm, refused, Calls, World, Attempt, to_end, later, Options, is_long, world,
  install_attempt,
}

-- The files, what they are on, and the counter `installed`.
pub record Machine (W : Type 0) : Type 0 where
  pub disk : World W
  pub at : ℕ → File
  pub installed : ℕ

pub data Run (W : Type 0) : Type 0 where
  ret : Machine W → Run W
  exits : Run W
  unfinished : Run W

infixl 5 ◌>>=◌
abbrev pub ◌>>=◌ : {W : Type 0} → Run W → (Machine W → Run W) → Run W
ret m >>= f = f m
Run.exits >>= f = Run.exits
Run.unfinished >>= f = Run.unfinished

pub record Collector : Type 0 where
  pub dirs : List ℕ
  pub non_dirs : List ℕ
  pub hardlinks : List ℕ

pub record HardlinkEntry : Type 0 where
  pub dev : ℕ
  pub ino : ℕ
  pub file : ℕ

unfoldable pub find_entry : ℕ → ℕ → List HardlinkEntry → Option ℕ
find_entry dev ino [] = none
find_entry dev ino (e ∷ es) =
    let rest = find_entry dev ino es in if e.dev == dev && e.ino == ino then some e.file else rest

pub record Classified : Type 0 where
  pub at : ℕ → File
  pub collector : Collector
  pub hardlinks_root : List HardlinkEntry

unfoldable pub classify_kind : Kind → ℕ → Classified → Classified
unfolding modify find_entry
classify_kind directory a c = record c {
  collector = record c.collector { dirs = c.collector.dirs ++ a ∷ [] };
}
classify_kind regular a c =
    let st = (c.at a).stat in
    let plain = record c {
      collector = record c.collector { non_dirs = c.collector.non_dirs ++ a ∷ [] };
    } in
    if not (ltb 1 st.st_nlink)
    then plain
    else elim (find_entry st.st_dev st.st_ino c.hardlinks_root) [
      | some orig ↦ record c {
        at = modify a (λ f. record f { hardlink_target = some orig }) c.at;
        collector = record c.collector { hardlinks = c.collector.hardlinks ++ a ∷ [] };
      }
      | none ↦ record plain {
        hardlinks_root = record { dev = st.st_dev; ino = st.st_ino; file = a } ∷ c.hardlinks_root;
      }
    ]
classify_kind _ a c = record c {
  collector = record c.collector { non_dirs = c.collector.non_dirs ++ a ∷ [] };
}

unfoldable pub classify_file : ℕ → Classified → Classified
unfolding classify_kind kind
classify_file a c = classify_kind (kind (c.at a).stat.st_mode) a c

-- compare_dir_order a b < 0
unfoldable pub dir_before : File → File → Bool
unfolding str_lt
dir_before fa fb =
    if length fa.dst == length fb.dst
    then str_lt fa.dst fb.dst
    else ltb (length fa.dst) (length fb.dst)

unfoldable pub insert_dir : (ℕ → File) → ℕ → List ℕ → List ℕ
unfolding dir_before
insert_dir at a [] = a ∷ []
insert_dir at a (b ∷ bs) =
    let rest = insert_dir at a bs in if dir_before (at b) (at a) then b ∷ rest else a ∷ b ∷ bs

-- qsort with `compare_dir_order`
unfoldable pub sort_dirs : (ℕ → File) → List ℕ → List ℕ
unfolding insert_dir
sort_dirs at [] = []
sort_dirs at (a ∷ dirs) = insert_dir at a (sort_dirs at dirs)

module _ {W : Type 0} (sys : Calls W) (o : Options) where
  -- The label `end`.
  unfoldable pub mark : ℕ → World W → Machine W → Machine W
  unfolding modify
  mark a w m = record m {
    disk = w;
    at = modify a (λ f. record f { installed = true }) m.at;
    installed = suc m.installed;
  }

  unfoldable pub finish : ℕ → Machine W → Attempt W → Run W
  unfolding mark
  finish a m (to_end w) = ret (mark a w m)
  finish a m (later w) = ret (record m { disk = w })
  finish a m Attempt.exits = Run.exits
  finish a m Attempt.unfinished = Run.unfinished

  unfoldable pub install_file : ℕ → Machine W → Run W
  unfolding finish install_attempt
  install_file a m =
      if (m.at a).installed then ret m else finish a m (install_attempt sys o (m.at a) m.disk)

  abbrev pub path_of : File → CString
  path_of f = o.destdir ++ f.dst

  unfoldable pub after_link : ℕ → Machine W → Answer × W → Run W
  unfolding mark install_file
  after_link a m (ok, fs) = ret (mark a (world sys o m.disk fs) m)
  after_link a m (eexist, fs) = ret (mark a (world sys o m.disk fs) m)
  after_link a m (no_link, fs) = install_file a (record m { disk = world sys o m.disk fs })
  after_link a m (enoent, fs) = Run.exits
  after_link a m (failed, fs) = Run.exits

  unfoldable pub make_hardlink : ℕ → ℕ → Machine W → W → Run W
  unfolding after_link
  make_hardlink a t m fs = after_link a m (sys.hard_link (path_of (m.at t)) (path_of (m.at a)) fs)

  unfoldable pub after_clear : ℕ → ℕ → Machine W → Answer × W → Run W
  unfolding make_hardlink
  after_clear a t m (ok, fs) = make_hardlink a t m fs
  after_clear a t m (enoent, fs) = make_hardlink a t m fs
  after_clear a t m (_, fs) = Run.exits

  unfoldable pub link_to : ℕ → ℕ → Machine W → Run W
  unfolding after_clear mark
  link_to a t m =
      let cleared = after_clear a t m (sys.remove (path_of (m.at a)) m.disk.fs) in
      let kept = make_hardlink a t m m.disk.fs in
      if is_long o (m.at a).dst || is_long o (m.at t).dst
      then Run.exits
      else if str_eq (path_of (m.at a)) (path_of (m.at t))
      then ret (mark a m.disk m)
      else if o.force
      then cleared
      else kept

  -- A link where the file that it goes to is installed, a copy otherwise.
  unfoldable pub install_target : ℕ → Machine W → Option ℕ → Run W
  unfolding link_to install_file
  install_target a m none = install_file a m
  install_target a m (some t) =
      let linked = link_to a t m in
      let copied = install_file a m in if (m.at t).installed then linked else copied

  unfoldable pub install_hardlink : ℕ → Machine W → Run W
  unfolding install_target
  install_hardlink a m =
      if (m.at a).installed then ret m else install_target a m (m.at a).hardlink_target

  -- A loop of main over one of the arrays.
  unfoldable pub install_each : (ℕ → Machine W → Run W) → List ℕ → Machine W → Run W
  install_each install [] m = ret m
  install_each install (a ∷ fs) m =
      let rest = install a m >>= install_each install fs in
      let passed = install_each install fs m in if (m.at a).installed then passed else rest

  -- The first two steps of a round, where there is at most one worker.
  unfoldable pub install_first : Collector → Machine W → Run W
  unfolding install_each install_file
  install_first c m = install_each install_file c.dirs m >>= install_each install_file c.non_dirs

  -- With the third step.
  unfoldable pub one_round : Collector → Machine W → Run W
  unfolding install_first install_each install_hardlink
  one_round c m = install_first c m >>= install_each install_hardlink c.hardlinks

  unfoldable pub rounds : ℕ → Collector → Machine W → Run W
  unfolding one_round
  rounds zero c m = Run.unfinished
  rounds (suc fuel) c m = one_round c m >>= λ m'.
      let rest = rounds fuel c m' in if m'.installed == m.installed then ret m' else rest

  -- The mode of a symbolic link stays.
  unfoldable pub set_mode : ℕ → Machine W → Kind → W → Run W
  set_mode a m link w = ret (record m { disk = world sys o m.disk w })
  set_mode a m _ w =
      let (done, w') = sys.chmod (path_of (m.at a)) (m.at a).stat.st_mode w in
      if done then ret (record m { disk = world sys o m.disk w' }) else Run.exits

  unfoldable pub after_chown : ℕ → Machine W → Chowned × W → Run W
  unfolding set_mode
  after_chown a m (changed, w) = set_mode a m (kind (m.at a).stat.st_mode) w
  after_chown a m (eperm, w) = set_mode a m (kind (m.at a).stat.st_mode) w
  after_chown a m (refused, w) = Run.exits

  unfoldable pub apply_permissions : ℕ → Machine W → Run W
  unfolding after_chown
  apply_permissions a m =
      let st = (m.at a).stat in
      let applied = after_chown a m (sys.lchown (path_of (m.at a)) st.st_uid st.st_gid m.disk.fs) in
      if (m.at a).installed then if is_long o (m.at a).dst then Run.exits else applied else ret m

  unfoldable pub apply_each : List ℕ → Machine W → Run W
  unfolding apply_permissions
  apply_each [] m = ret m
  apply_each (a ∷ fs) m = apply_permissions a m >>= apply_each fs

  -- The test behind the rounds, and the permissions, of the directories from the last on.
  unfoldable pub check_and_apply : ℕ → Collector → Machine W → Run W
  unfolding apply_each
  check_and_apply tree_nr c m =
      let applied =
        apply_each c.non_dirs m >>= apply_each c.hardlinks >>= apply_each (reverse c.dirs) in
      if ltb m.installed tree_nr then Run.exits else applied

  unfoldable pub install_all : ℕ → ℕ → Collector → Machine W → Run W
  unfolding rounds check_and_apply
  install_all fuel tree_nr c m = rounds fuel c m >>= check_and_apply tree_nr c
