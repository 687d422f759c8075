-- ===== src/Bench/Dates/Tests.antt =====
-- Tests and examples of the dates.
use tuletorn.Common.{◌/◌, ◌≡◌, refl}
use tuletorn.Bench.Dates.{civil_from_days, clock_of}
use tuletorn.Bench.Dates.Calendar.{IsMoment, civil_from_days-IsMoment}

known_dates :
    (civil_from_days 0 ≡ (1970, 1, 1))
    × (civil_from_days (1000000000 / 86400) ≡ (2001, 9, 9))
    × (civil_from_days (1709164800 / 86400) ≡ (2024, 2, 29))
    × (civil_from_days (1735689599 / 86400) ≡ (2024, 12, 31))
    × (clock_of 1735689599 ≡ (23, 59, 59))
unfolding civil_from_days clock_of
known_dates = (refl, refl, refl, refl, refl)

civil_from_days-IsMoment_example :
    IsMoment 1735689599 (civil_from_days (1735689599 / 86400)) (clock_of 1735689599)
civil_from_days-IsMoment_example = civil_from_days-IsMoment 1735689599
