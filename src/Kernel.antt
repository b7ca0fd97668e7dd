-- ===== src/Kernel.antt =====
-- tasking/scheduler.rs: the functions on the global scheduler that reach file descriptors.
pub mod Table
pub mod Calls
pub mod Spawn
pub mod Wait
pub mod History
mod Tests
