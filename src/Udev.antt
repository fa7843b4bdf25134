-- ===== src/Udev.antt =====
-- The checker of udev rules, utils/udev-rules: `Keys` has the tables of udev-rules.h, `UdevString`
-- the growing strings, `State` what the parser keeps and how it reports, `Checks` and `Token` the
-- checks of a pair, `Rules` the actions of the grammar, `Goto` the check of jumps, `Options` the
-- command line.
pub mod Keys
pub mod UdevString
pub mod State
pub mod Checks
pub mod Token
pub mod Rules
pub mod Goto
pub mod Options
pub mod Keeps
pub mod Reports
pub mod Jumps
pub mod Legal
pub mod Tables
