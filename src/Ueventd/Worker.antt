-- ===== src/Ueventd/Worker.antt =====
-- features/runtime/src/ueventd/queue-processor.c and `empty_directory` of path.c: what the child
-- process of a queue does. A directory is the list of its entries. The handler program is an
-- argument, which takes the queue's directory to what it leaves there. A failing open, mkdir,
-- rename or fork of the child, or a failing write to the pipe, is not modelled.
use make_initrd.Prelude.{
  ℕ, Bool, true, false, not, ◌&&◌, List, [], ◌∷◌, ◌==◌, if◌then◌else◌, str_eq,
}
use make_initrd.Ueventd.Watch.{Watch, Dirent, is_reg}

abbrev pub visible : Dirent → Bool
visible ent = elim ent.d_name [ [] ↦ true | c ∷ cs ↦ not (c == b'.') ]

unfoldable pub empty_directory : List Dirent → Bool
empty_directory [] = true
empty_directory (ent ∷ ents) = if visible ent then false else empty_directory ents

-- renameat: an entry of that name is replaced.
unfoldable pub replace_entry : Dirent → List Dirent → List Dirent
replace_entry ent [] = ent ∷ []
replace_entry ent (e ∷ es) =
    if str_eq e.d_name ent.d_name then ent ∷ es else e ∷ replace_entry ent es

abbrev pub moved : Dirent → Bool
moved ent = visible ent && is_reg ent.d_type

unfoldable pub move_files : List Dirent → List Dirent → List Dirent × List Dirent
move_files [] dst = ([], dst)
move_files (ent ∷ src) dst =
    let (kept, dst') = move_files src (if moved ent then replace_entry ent dst else dst) in
    (if moved ent then kept else ent ∷ kept, dst')

-- The two directories at the end, and the watch descriptors that are written to the pipe, of which the
-- worker has the other end.
pub record Exit : Type 0 where
  pub srcdir : List Dirent
  pub dstdir : List Dirent
  pub written : List ℕ

unfoldable pub signal_unhandled_events : Watch → List ℕ
signal_unhandled_events queue = queue.q_watchfd ∷ []

unfoldable pub process_events :
    Watch → (List Dirent → List Dirent) → List Dirent → List Dirent → Exit
unfolding signal_unhandled_events
process_events queue handler src dst =
    let (src', dst') = move_files src dst in
    if empty_directory dst'
    then record { srcdir = src'; dstdir = dst'; written = [] }
    else let left = handler dst' in
      record {
        srcdir = src';
        dstdir = left;
        written = if empty_directory left then [] else signal_unhandled_events queue;
      }
