-- ===== src/Keyboard.antt =====
-- drivers/keyboard.rs: the decoder of keyboard scancodes.
pub mod Key
pub mod Tables
pub mod Decode
mod Tests
