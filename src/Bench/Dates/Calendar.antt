-- ===== src/Bench/Dates/Calendar.antt =====
-- The dates of `civil_from_days` are those of the Gregorian calendar.
use tuletorn.Common.{
  ℕ, zero, suc, ◌+◌, ◌-◌, ◌*◌, ◌/◌, ◌%◌, ◌≡◌, ◌≤◌, ◌<◌, refl, Bool, false, ◌&&◌, ◌||◌, not,
  if◌then◌else◌, ◌==◌, arith,
}
use tuletorn.Bench.Dates.{
  Date, year_of_era, day_of_year, march_month, date_of, civil_from_days, clock_of,
}

abbrev pub is_leap : (year : ℕ) → Bool
is_leap y = y % 4 == 0 && (not (y % 100 == 0) || y % 400 == 0)

abbrev pub month_length : (year month : ℕ) → ℕ
month_length y m =
    if m == 2
    then (if is_leap y then 29 else 28)
    else (if m == 4 || m == 6 || m == 9 || m == 11 then 30 else 31)

-- The days of the year before a month.
abbrev pub before_month : (year month : ℕ) → ℕ
before_month y zero = 0
before_month y (suc zero) = 0
before_month y (suc (suc m)) = before_month y (suc m) + month_length y (suc m)

-- The days before a year, from the year 1 on.
abbrev pub before_year : (year : ℕ) → ℕ
before_year y = let p = y - 1 in ((365 * p + p / 4) - p / 100) + p / 400

-- The number of a day, where the first day of the year 1 has the number 1.
abbrev pub ordinal : Date → ℕ
ordinal (y, m, d) = before_year y + before_month y m + d

abbrev pub IsDate : Date → Type 0
IsDate (y, m, d) = (1 ≤ m) × (m ≤ 12) × (1 ≤ d) × (d ≤ month_length y m)

-- The year that starts in March, and the day of a number within it.
abbrev march_year : (z : ℕ) → ℕ
march_year z = year_of_era (z % 146097) + z / 146097 * 400

abbrev before_march : (march_year : ℕ) → ℕ
before_march y = ((365 * y + y / 4) - y / 100) + y / 400

march_year-day_of_year : (z : ℕ) → z ≡ before_march (march_year z) + day_of_year (z % 146097)
march_year-day_of_year z = omega arith

day_of_year-bound : (z : ℕ) → day_of_year (z % 146097) ≤ 365
day_of_year-bound z = omega arith

-- Only a leap year has the day before its first of March.
day_of_year-common : (z : ℕ) → is_leap (march_year z + 1) ≡ false → day_of_year (z % 146097) ≤ 364
day_of_year-common z common = ground arith

-- A date with the number that its year and day from March on have.
IsDayOf : (march_year doy : ℕ) → Date → Type 0
IsDayOf y doy date = IsDate date × (ordinal date + 306 ≡ before_march y + doy + 1)

module _ (y doy : ℕ) (positive : 1 ≤ y) (bound : doy ≤ 365)
    (common : is_leap (y + 1) ≡ false → doy ≤ 364) where
  date_of-IsDayOf : (mp : ℕ) → march_month doy ≡ mp → IsDayOf y doy (date_of y doy mp)
  unfolding IsDayOf
  date_of-IsDayOf zero e = ground arith
  date_of-IsDayOf (suc zero) e = ground arith
  date_of-IsDayOf (suc (suc zero)) e = ground arith
  date_of-IsDayOf (suc (suc (suc zero))) e = ground arith
  date_of-IsDayOf (suc (suc (suc (suc zero)))) e = ground arith
  date_of-IsDayOf (suc (suc (suc (suc (suc zero))))) e = ground arith
  date_of-IsDayOf (suc (suc (suc (suc (suc (suc zero)))))) e = ground arith
  date_of-IsDayOf (suc (suc (suc (suc (suc (suc (suc zero))))))) e = ground arith
  date_of-IsDayOf (suc (suc (suc (suc (suc (suc (suc (suc zero)))))))) e = ground arith
  date_of-IsDayOf (suc (suc (suc (suc (suc (suc (suc (suc (suc zero))))))))) e = ground arith
  date_of-IsDayOf (suc (suc (suc (suc (suc (suc (suc (suc (suc (suc zero)))))))))) e = ground arith
  date_of-IsDayOf (suc (suc (suc (suc (suc (suc (suc (suc (suc (suc (suc zero))))))))))) e =
      ground arith
  date_of-IsDayOf (suc (suc (suc (suc (suc (suc (suc (suc (suc (suc (suc (suc mp)))))))))))) e =
      absurd (omega arith)

-- A date and a time of day that are as many seconds after the first of January 1970, the day 719163.
abbrev pub IsMoment : (unix_secs : ℕ) → Date → ℕ × ℕ × ℕ → Type 0
IsMoment secs date (hour, minute, second) =
    IsDate date
    × (hour < 24)
    × (minute < 60)
    × (second < 60)
    × (ordinal date * 86400 + hour * 3600 + minute * 60 + second ≡ secs + 719163 * 86400)

-- The date and the time of day that are printed for a Unix time are a date of the Gregorian calendar and
-- a time of day that are as many seconds after the first of January 1970 as it says.
pub civil_from_days-IsMoment :
    (unix_secs : ℕ) → IsMoment unix_secs (civil_from_days (unix_secs / 86400)) (clock_of unix_secs)
unfolding civil_from_days clock_of IsDayOf
civil_from_days-IsMoment secs =
    let z = secs / 86400 + 719468 in
    let y = march_year z in
    let doy = day_of_year (z % 146097) in
    let whole = march_year-day_of_year z in
    let positive : 1 ≤ y = omega arith in
    let (is_date, number) =
      date_of-IsDayOf y doy positive (day_of_year-bound z) (day_of_year-common z) (march_month doy)
        refl in
    (is_date, omega arith, omega arith, omega arith, omega arith)
