-- ===== src/Scheduler.antt =====
-- tasking/scheduler.rs.
pub mod Task
pub mod Ops
pub mod Lifecycle
pub mod Switch
mod Tests
