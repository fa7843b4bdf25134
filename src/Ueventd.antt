-- ===== src/Ueventd.antt =====
-- The uevent daemon, features/runtime/src/ueventd: `Watch` has the watch list of ueventd.c and the
-- operations on it, `Timer` the delayed events, `Events` the handlers of the four descriptors,
-- `Loop` one round of `main`, and `Worker` the process that queue-processor.c runs for a queue.
pub mod Watch
pub mod Timer
pub mod Events
pub mod Loop
pub mod Keeps
pub mod Balance
pub mod Safety
pub mod Dispatch
pub mod Pause
pub mod Retry
pub mod Worker
