-- ===== src/Queues.antt =====
-- The invariant of the queues of src/threads/thread.c and synch.c and src/devices/timer.c: which
-- thread stands on which list.
mod Defs
mod Moves
pub mod Switch
pub mod Run
pub mod Wait
pub mod Tick
pub use Defs.*
pub use Moves.*
