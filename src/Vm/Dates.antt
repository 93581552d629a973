-- ===== src/Vm/Dates.antt =====
-- The proleptic Gregorian calendar of src/vm/native/java/civil.rs. Integers are signed: `i32` sums and
-- products are wrapped where a division, a test or the caller uses them, which comes to the same as wrapping
-- each. The `i64` arithmetic stays far inside its range but at the ends of the time line, where it is wrapped
-- too.
pub mod Years
pub mod Days
pub mod FromDays
pub mod RoundTrip
pub mod Instants
pub mod Months
pub mod Calendar
pub mod Fields
use dexvm.Prelude.{ℕ, suc, ◌+◌, ◌*◌, ◌/◌, ◌%◌, Bool, true, false, if◌then◌else◌}
use dexvm.Prelude.Int.{
  ℤ, pos, negsuc, ◌+ℤ◌, ◌-ℤ◌, ◌*ℤ◌, leb_ℤ, tdiv, trem, div_euclid, rem_euclid, wrap32, wrap64,
}

abbrev pub day_ms : ℕ
day_ms = 86400000

-- `i32::from(month <= 2)`
abbrev pub early : ℤ → ℤ
early month = if leb_ℤ month (pos 2) then pos 1 else pos 0

-- `year -= i32::from(month <= 2)`: years start in March.
unfoldable pub march_year : ℤ → ℤ → ℤ
march_year year month = wrap32 (year -ℤ early month)

-- `if year >= 0 { year } else { year - 399 } / 400`
unfoldable pub era_of_year : ℤ → ℤ
era_of_year y = tdiv (if leb_ℤ (pos 0) y then y else wrap32 (y -ℤ pos 399)) 400

unfoldable pub shifted_month : ℤ → ℤ
shifted_month month = wrap32 (month +ℤ (if leb_ℤ (pos 3) month then negsuc 2 else pos 9))

unfoldable pub day_of_year : ℤ → ℤ → ℤ
day_of_year month day = tdiv (wrap32 (shifted_month month *ℤ 153 +ℤ pos 2)) 5 +ℤ day -ℤ pos 1

unfoldable pub day_of_era : ℤ → ℤ → ℤ
day_of_era yoe doy = yoe *ℤ 365 +ℤ tdiv yoe 4 -ℤ tdiv yoe 100 +ℤ doy

unfoldable pub days_from_civil : ℤ → ℤ → ℤ → ℤ
days_from_civil year month day =
    let y = march_year year month in
    let era = era_of_year y in
    let doe = day_of_era (wrap32 (y -ℤ era *ℤ 400)) (day_of_year month day) in
    wrap32 (era *ℤ 146097 +ℤ doe -ℤ pos 719468)

pub record Civil : Type 0 where
  pub year : ℤ
  pub month : ℤ
  pub day : ℤ

abbrev pub civil : ℤ → ℤ → ℤ → Civil
civil y m d = record { year = y; month = m; day = d }

-- `if z >= 0 { z } else { z - 146_096 } / 146_097`
unfoldable pub era_of_days : ℤ → ℤ
era_of_days z = tdiv (if leb_ℤ (pos 0) z then z else wrap64 (z -ℤ pos 146096)) 146097

unfoldable pub year_of_era : ℤ → ℤ
year_of_era doe = tdiv (doe -ℤ tdiv doe 1460 +ℤ tdiv doe 36524 -ℤ tdiv doe 146096) 365

-- The month and day of the year, from `mp` on, and the casts to `i32`.
unfoldable pub civil_of_year : ℤ → ℤ → Civil
civil_of_year year doy =
    let mp = tdiv (doy *ℤ 5 +ℤ pos 2) 153 in
    let day = doy -ℤ tdiv (mp *ℤ 153 +ℤ pos 2) 5 +ℤ pos 1 in
    let month = mp +ℤ (if leb_ℤ mp (pos 9) then pos 3 else negsuc 8) in
    civil (wrap32 (year +ℤ early month)) (wrap32 month) (wrap32 day)

unfoldable pub civil_from_days : ℤ → Civil
civil_from_days days =
    let z = wrap64 (days +ℤ pos 719468) in
    let era = era_of_days z in
    let doe = z -ℤ era *ℤ 146097 in
    let yoe = year_of_era doe in
    civil_of_year (yoe +ℤ era *ℤ 400) (doe -ℤ (yoe *ℤ 365 +ℤ tdiv yoe 4 -ℤ tdiv yoe 100))

pub record DateTime : Type 0 where
  pub date : Civil
  pub hour : ℤ
  pub minute : ℤ
  pub second : ℤ
  pub milli : ℤ

unfoldable pub components : ℤ → DateTime
components millis =
    let ms = rem_euclid millis day_ms in
    record {
      date = civil_from_days (div_euclid millis day_ms);
      hour = pos (ms / 3600000);
      minute = pos (ms % 3600000 / 60000);
      second = pos (ms % 60000 / 1000);
      milli = pos (ms % 1000);
    }

-- `month0` counts from January of `year`, and may lead out of the year.
unfoldable pub compose : ℤ → ℤ → ℤ → ℤ → ℤ → ℤ → ℤ → ℤ
compose year month0 day hour minute second milli =
    days_from_civil (wrap32 (year +ℤ div_euclid month0 12)) (pos (rem_euclid month0 12 + 1)) day
      *ℤ day_ms
    +ℤ hour *ℤ 3600000
    +ℤ minute *ℤ 60000
    +ℤ second *ℤ 1000
    +ℤ milli
