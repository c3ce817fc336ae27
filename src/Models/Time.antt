-- ===== src/Models/Time.antt =====
-- A timezone-aware UTC `datetime` as a number of microseconds, counted from midnight of the first
-- day that the type has; a `timedelta` as a number of microseconds. `hour` is 3600 seconds.
use augury.Prelude.{ℕ, ◌-◌, ◌*◌, ◌%◌}

abbrev pub DateTime : Type 0
DateTime = ℕ

abbrev pub hour : ℕ
hour = 3_600_000_000

abbrev pub day : ℕ
day = 24 * 3_600_000_000

-- `t.replace(minute=0, second=0, microsecond=0)`
unfoldable pub floor_hour : DateTime → DateTime
floor_hour t = t - t % hour
