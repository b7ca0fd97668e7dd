-- ===== src/Timer.antt =====
-- time/timer.rs: the uptime as days, hours, minutes and seconds.
pub mod Uptime
mod Tests
use leaf_os_alpha.Base.{ℕ, ◌/◌, ◌%◌}

-- The casts to `u8` are remainders by 256.
pub split_uptime : ℕ → ℕ × ℕ × ℕ × ℕ
split_uptime seconds =
    (seconds / 86400, seconds / 3600 % 24 % 256, seconds / 60 % 60 % 256, seconds % 60 % 256)
