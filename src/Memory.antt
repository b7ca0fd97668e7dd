-- ===== src/Memory.antt =====
-- memory/mod.rs: the memory map, physical frames and user address ranges.
pub mod Map
pub mod Frames
pub mod Boot
pub mod Space
mod Tests
