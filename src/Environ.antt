-- ===== src/Environ.antt =====
-- The tool that prints and changes the environment, features/runtime/src/environ: `Show` prints it,
-- `Load` reads a file of that form, `Unset` removes variables by patterns. `Printed` is about reading
-- what was printed, `Matched` about what the patterns choose.
pub mod Show
pub mod Load
pub mod Printed
pub mod Unset
pub mod Matched
