-- ===== src/Vm/Dates/Instants.antt =====
-- Every day number and every instant of src/vm/native/java/civil.rs comes back from its date.
use dexvm.Prelude.{ℕ, suc, ◌+◌, ◌-◌, ◌*◌, ◌/◌, ◌%◌, ◌<◌, ◌≤◌, ◌≡◌, ◌≢◌, refl, ◌∙◌, arith}
use dexvm.Prelude.{if◌then◌else◌}
use dexvm.Prelude.Int.{
  ℤ, pos, pos_part, neg_part, ◌+ℤ◌, ◌-ℤ◌, ◌*ℤ◌, div_euclid, rem_euclid, +ℤ_parts, *ℤ_parts,
  eq_of_parts, wrap32, wrap32_id,
}
use native.Mathlib.Decide.{ℕ_discrete}
use dexvm.Vm.Dates.{civil, days_from_civil, civil_from_days, day_ms, components, compose}
use dexvm.Vm.Dates.Years.{days_to, january, year_bounds, IsEra, january-le, one_part}
use dexvm.Vm.Dates.Days.{IsDay, days_from_civil_lem}
use dexvm.Vm.Dates.FromDays.{year_place, month_of, day_of, civil_from_days_lem}
use dexvm.Vm.Dates.RoundTrip.{is_leap, days_in_month, IsDate, euclid_lem, index_lem, leap_lem}

-- The month ends after the day; February does in a year that is long enough.
month_fits :
    (year : ℤ) (r : ℕ) → r ≤ 365 → month_of r ≢ 2 → day_of r ≤ days_in_month year (month_of r)
unfolding days_in_month
month_fits year r h other = ground arith

february_fits :
    (year : ℤ) (r : ℕ)
    → r < (if is_leap year then 366 else 365)
    → month_of r ≡ 2
    → day_of r ≤ days_in_month year (month_of r)
unfolding days_in_month
february_fits year r h feb = ground arith

-- A day number with the date that `civil_from_days` finds.
pub record Dated (days : ℤ) : Type 0 where
  pub year : ℤ
  pub month : ℕ
  pub day : ℕ
  pub found : civil_from_days days ≡ civil year (pos month) (pos day)
  pub is_date : IsDate year month day
  pub back : days_from_civil year (pos month) (pos day) ≡ days

day_fits :
    (y year era : ℤ) (q r : ℕ)
    → days_to q + r < days_to (suc q)
    → IsEra 400 y era q
    → pos_part year + neg_part y ≡ neg_part year + pos_part y + january (month_of r)
    → day_of r ≤ days_in_month year (month_of r)
day_fits y year era q r fits h start = elim (ℕ_discrete (month_of r) 2) [
  | no other ↦ month_fits year r (omega (arith, fits, h.below)) other
  | yes feb ↦
      (let late : january (month_of r) ≡ 1 = rw feb refl in
        february_fits year r
          (omega (arith, leap_lem y year era q (start ∙ omega (arith, late)) h, fits)) feb)
]

Dated-in :
    (days era : ℤ) (q r : ℕ)
    → q < 400
    → days_to q + r < days_to (suc q)
    → pos_part era + neg_part era ≤ 12330
    → IsDay days era (days_to q + r)
    → Dated days
Dated-in days era q r below fits near counted =
    let m = month_of r in
    let y = pos q +ℤ era *ℤ 400 in
    let year = y +ℤ pos (january m) in
    let in_era : IsEra 400 y era q = record {
      below = below;
      sum = omega (arith, +ℤ_parts (pos q) (era *ℤ 400), *ℤ_parts era 400);
      near = omega (arith, near);
    } in
    let start : pos_part year + neg_part y ≡ neg_part year + pos_part y + january m =
      omega (arith, +ℤ_parts y (pos (january m))) in
    let year_near =
      one_part year 5000000 (omega (arith, start, in_era.sum, below, near, january-le m))
        (omega (arith, start, in_era.sum, below, near, january-le m)) in
    let index = index_lem r (omega (arith, fits, below)) in
    let again = days_from_civil_lem year y era q m (day_of r) start in_era index.1 in
    record {
      year = year;
      month = m;
      day = day_of r;
      found = civil_from_days_lem days era year y q r fits in_era counted start;
      is_date = record {
        near = year_near;
        month_in = (index.1.0, index.1.1);
        day_in = (index.1.2, day_fits y year era q r fits in_era start);
      };
      back = eq_of_parts _ _ (omega (arith, again, counted, index.0));
    }

-- Each day number up to 1.8 thousand million from 1970 is the number of the date that `civil_from_days` finds
-- for it, which is a date of the calendar.
days_from_civil-civil_from_days :
    (days : ℤ) → pos_part days + neg_part days ≤ 1800000000 → Dated days
days_from_civil-civil_from_days days near =
    let z = days +ℤ pos 719468 in
    let parts = euclid_lem z 146097 (omega arith) in
    let era = div_euclid z 146097 in
    let x = rem_euclid z 146097 in
    let sum = +ℤ_parts days (pos 719468) in
    let bounds = year_bounds x parts.0 in
    let era_near =
      one_part era 12330 (omega (arith, parts, sum, near)) (omega (arith, parts, sum, near)) in
    let whole : days_to (year_place x) + (x - days_to (year_place x)) ≡ x = omega (arith, bounds) in
    Dated-in days era (year_place x) (x - days_to (year_place x)) bounds.0
      (omega (arith, whole, bounds)) era_near (omega (arith, whole, parts, sum))

-- A month from 1 to 12 leads out of no year.
pub month_of_year :
    (year : ℤ) (m : ℕ)
    → (1 ≤ m) × (m ≤ 12)
    → pos_part year + neg_part year ≤ 5000000
    → (wrap32 (year +ℤ div_euclid (pos m -ℤ pos 1) 12) ≡ year)
      × (rem_euclid (pos m -ℤ pos 1) 12 + 1 ≡ m)
unfolding div_euclid rem_euclid ◌-ℤ◌
month_of_year year m h near =
    let first : (m - 1) / 12 ≡ 0 = omega arith in
    let same : year +ℤ pos 0 ≡ year = eq_of_parts _ _ (omega (arith, +ℤ_parts year (pos 0))) in
    (ground (arith, first, same, wrap32_id year (omega arith) (omega arith)), ground arith)

-- The time of a day, in its parts.
pub time_sum :
    (start : ℤ) (ms : ℕ)
    → ms < day_ms
    → start
        +ℤ pos (ms / 3600000) *ℤ 3600000
        +ℤ pos (ms % 3600000 / 60000) *ℤ 60000
        +ℤ pos (ms % 60000 / 1000) *ℤ 1000
        +ℤ pos (ms % 1000)
      ≡ start +ℤ pos ms
time_sum start ms h =
    let hours : ms / 3600000 * 3600000
          + ms % 3600000 / 60000 * 60000
          + ms % 60000 / 1000 * 1000
          + ms % 1000
        ≡ ms =
      omega arith in
    eq_of_parts _ _ (omega (arith, +ℤ_parts, *ℤ_parts, hours))

-- Taking an instant apart and composing it again gives the instant, up to 4.9 million years from 1970.
pub compose-components :
    (millis : ℤ)
    → pos_part millis + neg_part millis ≤ 155000000000000000
    → (let t = components millis in
        compose t.date.year (t.date.month -ℤ pos 1) t.date.day t.hour t.minute t.second t.milli
        ≡ millis)
unfolding components compose
compose-components millis near =
    let parts = euclid_lem millis day_ms (omega arith) in
    let days = div_euclid millis day_ms in
    let days_near =
      one_part days 1800000000 (omega (arith, parts, near)) (omega (arith, parts, near)) in
    let dated = days_from_civil-civil_from_days days days_near in
    let months = month_of_year dated.year dated.month dated.is_date.month_in dated.is_date.near in
    rw (dated.found) (
      rw (months.0) (
        rw (months.1) (
          rw (dated.back) (
            time_sum (days *ℤ day_ms) (rem_euclid millis day_ms) parts.0
            ∙ eq_of_parts _ _ (
                omega (
                  arith,
                  +ℤ_parts (days *ℤ day_ms) (pos (rem_euclid millis day_ms)),
                  *ℤ_parts days day_ms,
                  parts,
                ))))))
