-- ===== src/Gps.antt =====
-- internal/gps/gps.go. An instant is the number of nanoseconds from the GPS epoch, 1980-01-06, to
-- it in UTC without leap seconds, as time.Time counts; instants before the epoch are left out.
pub mod RoundTrip
use chirpstack_network_serve.Prelude.{
  ℕ, ◌+◌, ◌-◌, ◌*◌, ◌/◌, ◌≤◌, ◌<◌, ◌≡◌, refl, List, [], ◌∷◌, ltb, if◌then◌else◌, map,
}

-- time.Second
abbrev pub second : ℕ
second = 1_000_000_000

-- The days from 0000-03-01 to a date of the Gregorian calendar, with March as the first month.
abbrev days_of : ℕ → ℕ → ℕ → ℕ
days_of y m d =
    let y' = if ltb m 3 then y - 1 else y in
    let m' = if ltb m 3 then m + 9 else m - 3 in
    365 * y' + y' / 4 - y' / 100 + y' / 400 + (153 * m' + 2) / 5 + d - 1

-- time.Date(y, m, d, 23, 59, 59, 0, time.UTC), from the GPS epoch
abbrev last_second : ℕ → ℕ → ℕ → ℕ
last_second y m d = ((days_of y m d - days_of 1980 1 6) * 86400 + 86399) * second

-- leapSecondsTable, whose durations are one second each
unfoldable pub leap_seconds_table : List (ℕ × ℕ)
leap_seconds_table =
    (last_second 1981 6 30, second)
    ∷ (last_second 1982 6 30, second)
    ∷ (last_second 1983 6 30, second)
    ∷ (last_second 1985 6 30, second)
    ∷ (last_second 1987 12 31, second)
    ∷ (last_second 1989 12 31, second)
    ∷ (last_second 1990 12 31, second)
    ∷ (last_second 1992 6 30, second)
    ∷ (last_second 1993 6 30, second)
    ∷ (last_second 1994 6 30, second)
    ∷ (last_second 1995 12 31, second)
    ∷ (last_second 1997 6 30, second)
    ∷ (last_second 1998 12 31, second)
    ∷ (last_second 2005 12 31, second)
    ∷ (last_second 2008 12 31, second)
    ∷ (last_second 2012 6 30, second)
    ∷ (last_second 2015 6 30, second)
    ∷ (last_second 2016 12 31, second)
    ∷ []

-- The loop of NewFromTimeSinceGPSEpoch, which moves the instant as it goes.
unfoldable pub remove_leap_seconds : List (ℕ × ℕ) → ℕ → ℕ
remove_leap_seconds [] t = t
remove_leap_seconds ((ls, d) ∷ rest) t = remove_leap_seconds rest (if ltb ls t then t - d else t)

-- NewFromTimeSinceGPSEpoch
unfoldable pub new_from_time_since_gps_epoch : ℕ → ℕ
new_from_time_since_gps_epoch since_epoch = remove_leap_seconds leap_seconds_table since_epoch

-- The loop of TimeSinceGPSEpoch.
unfoldable pub leap_offset : List (ℕ × ℕ) → ℕ → ℕ
leap_offset [] t = 0
leap_offset ((ls, d) ∷ rest) t = (if ltb ls t then d else 0) + leap_offset rest t

-- TimeSinceGPSEpoch
unfoldable pub time_since_gps_epoch : ℕ → ℕ
time_since_gps_epoch t = t + leap_offset leap_seconds_table t
