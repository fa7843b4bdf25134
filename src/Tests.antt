-- ===== src/Tests.antt =====
-- The theorems at concrete inputs.
mod Daemon
mod Rules
mod Image
mod Modules
mod Variables
mod Copies
mod Needs
