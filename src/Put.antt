-- ===== src/Put.antt =====
-- The tool that copies files with what they need into a tree, utils/initrd-put: `Queue` has the files
-- that wait and those that are taken, `Copy` the creation of one file, `Rounds` the rest of the
-- installation, `Path` the resolution of a path, which `Resolved` is about. `Linked` is about the linked list in memory, `Search` about the search trees, `Front` and
-- `Refines` about the queue as a list of paths, `Copied`, `Installs`, `Settled` and `Parents` about the
-- installation.
pub mod Queue
pub mod Linked
pub mod Search
pub mod Front
pub mod Refines
pub mod Copy
pub mod Rounds
pub mod Copied
pub mod Installs
pub mod Settled
pub mod Path
pub mod Resolved
pub mod Parents
