-- ===== src/Bench/Dates.antt =====
-- crates/bench/src/metrics/hardware.rs, `format_iso8601`: a Unix time as a date and a time of day. The
-- code computes days as an `i64`; from 1970 on none of its differences falls below 0.
pub mod Calendar
mod Tests
use tuletorn.Common.{ℕ, ◌+◌, ◌-◌, ◌*◌, ◌/◌, ◌%◌, List, [], ◌∷◌, ◌++◌, if◌then◌else◌, ltb, leb}
use tuletorn.Common.Bytes.{Bytes}

-- Year, month and day.
abbrev pub Date : Type 0
Date = ℕ × ℕ × ℕ

-- `yoe`, the year within 400 years from March 0000 on.
abbrev pub year_of_era : (doe : ℕ) → ℕ
year_of_era doe = (doe - doe / 1460 + doe / 36524 - doe / 146096) / 365

-- `doy`, the day within a year that starts in March.
abbrev pub day_of_year : (doe : ℕ) → ℕ
day_of_year doe = let yoe = year_of_era doe in doe - ((365 * yoe + yoe / 4) - yoe / 100)

-- `mp`, the months since March.
abbrev pub march_month : (doy : ℕ) → ℕ
march_month doy = (5 * doy + 2) / 153

abbrev pub date_of : (march_year doy mp : ℕ) → Date
date_of y doy mp =
    let d = (doy - (153 * mp + 2) / 5) + 1 in
    let m = if ltb mp 10 then mp + 3 else mp - 9 in (if leb m 2 then y + 1 else y, m, d)

unfoldable pub civil_from_days : (days : ℕ) → Date
civil_from_days days =
    let z = days + 719468 in
    let era = z / 146097 in
    let doe = z % 146097 in
    date_of (year_of_era doe + era * 400) (day_of_year doe) (march_month (day_of_year doe))

-- Hour, minute and second.
unfoldable pub clock_of : (unix_secs : ℕ) → ℕ × ℕ × ℕ
clock_of secs = let rem = secs % 86400 in (rem / 3600, (rem % 3600) / 60, rem % 60)

-- `pad w n` prints `n` with zeros in front, at least `w` digits.
module _ (pad : (width n : ℕ) → Bytes) where
  abbrev pub print_moment : Date → ℕ × ℕ × ℕ → Bytes
  print_moment (y, m, d) (hour, minute, second) =
      pad 4 y
      ++ b'-'
        ∷ (pad 2 m
            ++ b'-'
              ∷ (pad 2 d
                  ++ b'T'
                    ∷ (pad 2 hour ++ b':' ∷ (pad 2 minute ++ b':' ∷ (pad 2 second ++ b'Z' ∷ [])))))

  pub format_iso8601 : (unix_secs : ℕ) → Bytes
  unfolding civil_from_days clock_of
  format_iso8601 secs = print_moment (civil_from_days (secs / 86400)) (clock_of secs)
