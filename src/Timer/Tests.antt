-- ===== src/Timer/Tests.antt =====
-- An uptime for time/timer.rs.
use leaf_os_alpha.Base.{◌+◌, ◌*◌, ◌≡◌, ◌<◌}
use leaf_os_alpha.Timer.{split_uptime}
use leaf_os_alpha.Timer.Uptime.{split_uptime_lem}

split_uptime_lem_example :
    let (days, hours, minutes, rest) = split_uptime 90061 in
    (((days * 24 + hours) * 60 + minutes) * 60 + rest ≡ 90061)
    × (hours < 24)
    × (minutes < 60)
    × (rest < 60)
split_uptime_lem_example = split_uptime_lem 90061
