-- ===== src/Timer/Uptime.antt =====
-- The split of time/timer.rs loses nothing.
use leaf_os_alpha.Base.{ℕ, ◌+◌, ◌*◌, ◌≡◌, ◌<◌, arith}
use leaf_os_alpha.Timer.{split_uptime}

-- The parts of an uptime add up to it, and there are less than 24 hours, 60 minutes and 60 seconds.
pub split_uptime_lem :
    (seconds : ℕ)
    → let (days, hours, minutes, rest) = split_uptime seconds in
      (((days * 24 + hours) * 60 + minutes) * 60 + rest ≡ seconds)
      × (hours < 24)
      × (minutes < 60)
      × (rest < 60)
unfolding split_uptime
split_uptime_lem seconds = (omega arith, omega arith, omega arith, omega arith)
