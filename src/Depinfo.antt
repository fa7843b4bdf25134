-- ===== src/Depinfo.antt =====
-- The tool that shows what a kernel module needs, utils/depinfo: `Firmware` looks for firmware files,
-- `Builtin` has what is built into the kernel, `Walk` follows the dependencies. `Candidates` is about
-- the search for a file, `Search` about the look-up of an entry, `Keeps` about what the walk keeps, `Once` and
-- `Tracked` about the modules that are shown, `Ends` about its end.
pub mod Firmware
pub mod Candidates
pub mod Builtin
pub mod Walk
pub mod Once
pub mod Search
pub mod Keeps
pub mod Tracked
pub mod Ends
