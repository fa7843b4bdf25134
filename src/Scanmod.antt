-- ===== src/Scanmod.antt =====
-- The search for kernel modules by rules, utils/initrd-scanmod: `Rules` reads the rules files, `Match`
-- tests a module against a set of rules, `Walk` collects the modules and shares them among workers.
-- `Chosen` is about one module, `Turns` and `Workers` about the workers' steps, `Walked` about all that is
-- printed, `Loaded` about the sets that are read.
pub mod Rules
pub mod Match
pub mod Walk
pub mod Chosen
pub mod Turns
pub mod Workers
pub mod Walked
pub mod Loaded
