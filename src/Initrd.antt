-- ===== src/Initrd.antt =====
-- Reading and writing initramfs images, utils: `Header` has the header of a cpio entry, `Read` and
-- `Write` the two directions of initrd-cpio.c, `Decompress` the choice of a decompressor, `Stream`
-- the parts of an image (initrd-parse.c) and `Extract` the loop of initrd-extract. `Bounds`,
-- `Ends` and `Endless` are about reading, `Fields` and `Layout` about what is written.
pub mod Header
pub mod Read
pub mod Write
pub mod Decompress
pub mod Stream
pub mod Extract
pub mod Bounds
pub mod Ends
pub mod Endless
pub mod Fields
pub mod Layout
pub mod Listing
pub mod Columns
