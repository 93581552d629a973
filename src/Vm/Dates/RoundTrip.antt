-- ===== src/Vm/Dates/RoundTrip.antt =====
-- The day numbers and the dates of src/vm/native/java/civil.rs are inverse to each other.
use dexvm.Prelude.{ℕ, suc, ◌+◌, ◌*◌, ◌%◌, ◌<◌, ◌≤◌, ◌≡◌, ◌≢◌, refl, ◌∙◌, arith}
use dexvm.Prelude.{◌==◌, not, ◌&&◌, ◌||◌, if◌then◌else◌, Bool}
use dexvm.Prelude.Int.{ℤ, pos, negsuc, pos_part, neg_part, ◌-ℤ◌, div_euclid, rem_euclid, -ℤ_parts}
use native.Mathlib.Decide.{ℕ_discrete}
use dexvm.Vm.Dates.{civil, days_from_civil, civil_from_days}
use dexvm.Vm.Dates.Years.{days_to, day_index, january, IsEra, january-le, one_part}
use dexvm.Vm.Dates.Days.{IsMonthDay, IsDay, days_from_civil_lem}
use dexvm.Vm.Dates.FromDays.{month_of, day_of, civil_from_days_lem}

-- The Gregorian rule, for years before year 1 as well.
unfoldable pub is_leap : ℤ → Bool
unfolding rem_euclid
is_leap year =
    rem_euclid year 4 == 0 && (not (rem_euclid year 100 == 0) || rem_euclid year 400 == 0)

unfoldable pub days_in_month : ℤ → ℕ → ℕ
unfolding is_leap
days_in_month year m =
    if m == 2
    then (if is_leap year then 29 else 28)
    else if (m == 4) || (m == 6) || (m == 9) || (m == 11)
    then 30
    else 31

-- A date of the calendar, with a year up to five million from 0.
pub record IsDate (year : ℤ) (m d : ℕ) : Type 0 where
  pub near : pos_part year + neg_part year ≤ 5000000
  pub month_in : (1 ≤ m) × (m ≤ 12)
  pub day_in : (1 ≤ d) × (d ≤ days_in_month year m)

-- Floor division leaves a remainder.
pub euclid_lem :
    (a : ℤ) (n : ℕ)
    → 0 < n
    → (rem_euclid a n < n)
      × (pos_part a + neg_part (div_euclid a n) * n
          ≡ neg_part a + pos_part (div_euclid a n) * n + rem_euclid a n)
unfolding div_euclid rem_euclid
euclid_lem (pos a) n h = (grind arith, grind arith)
euclid_lem (negsuc a) n h = (grind arith, grind arith)

-- The index of the day in the year, and back.
pub index_lem :
    (r : ℕ) → r ≤ 365 → (day_index (month_of r) (day_of r) ≡ r) × IsMonthDay (month_of r) (day_of r)
index_lem r h = (ground arith, ground arith)

-- The year has 366 days exactly if its February, at the end of it, has a leap day.
leap_table :
    (q : ℕ)
    → q < 400
    → days_to (suc q)
      ≡ days_to q
        + (if suc q % 4 == 0 && (not (suc q % 100 == 0) || suc q % 400 == 0) then 366 else 365)
leap_table q h = ground arith

pub leap_lem :
    (y year era : ℤ) (q : ℕ)
    → pos_part year + neg_part y ≡ neg_part year + pos_part y + 1
    → IsEra 400 y era q
    → days_to (suc q) ≡ days_to q + (if is_leap year then 366 else 365)
unfolding is_leap
leap_lem y year era q e h =
    let r4 : rem_euclid year 4 ≡ suc q % 4 =
      omega (arith, euclid_lem year 4 (omega arith), e, h.sum) in
    let r100 : rem_euclid year 100 ≡ suc q % 100 =
      omega (arith, euclid_lem year 100 (omega arith), e, h.sum) in
    let r400 : rem_euclid year 400 ≡ suc q % 400 =
      omega (arith, euclid_lem year 400 (omega arith), e, h.sum) in
    rw r4 (rw r100 (rw r400 (leap_table q h.below)))

-- The day in the year of a date, in its era.
pub record Placed (year : ℤ) (m d : ℕ) : Type 0 where
  pub era : ℤ
  pub start : ℤ
  pub q : ℕ
  pub in_era : IsEra 400 start era q
  pub from : pos_part year + neg_part start ≡ neg_part year + pos_part start + january m
  pub inside : days_to q + day_index m d < days_to (suc q)
  pub far : pos_part era + neg_part era ≤ 12600

-- February is the last month of the year.
february :
    (year : ℤ) (d : ℕ)
    → d ≤ days_in_month year 2
    → day_index 2 d < (if is_leap year then 366 else 365)
unfolding days_in_month
february year d h = ground arith

before_february : (m d : ℕ) → (1 ≤ m) × (m ≤ 12) → (1 ≤ d) × (d ≤ 31) → m ≢ 2 → day_index m d < 365
before_february m d hm hd other = ground arith

pub days_in_month-le : (year : ℤ) (m : ℕ) → days_in_month year m ≤ 31
unfolding days_in_month
days_in_month-le year m = ground arith

inside_lem :
    (y year era : ℤ) (q m d : ℕ)
    → pos_part year + neg_part y ≡ neg_part year + pos_part y + january m
    → IsEra 400 y era q
    → IsDate year m d
    → days_to q + day_index m d < days_to (suc q)
inside_lem y year era q m d e h date = elim (ℕ_discrete m 2) [
  | yes p ↦
      rw p (
        omega (arith, february year d (rw p at date.day_in).1, leap_lem y year era q (rw p at e) h))
  | no other ↦ omega (
    arith,
    before_february m d date.month_in (omega (arith, date.day_in, days_in_month-le year m)) other,
  )
]

pub place : (year : ℤ) (m d : ℕ) → IsDate year m d → Placed year m d
place year m d h =
    let y = year -ℤ pos (january m) in
    let e = -ℤ_parts year (pos (january m)) in
    let near =
      one_part (div_euclid y 400) 12600
        (omega (arith, e, euclid_lem y 400 (omega arith), h.near, january-le m))
        (omega (arith, e, euclid_lem y 400 (omega arith), h.near, january-le m)) in
    let in_era : IsEra 400 y (div_euclid y 400) (rem_euclid y 400) = record {
      below = (euclid_lem y 400 (omega arith)).0;
      sum = (euclid_lem y 400 (omega arith)).1;
      near = omega (arith, near);
    } in
    let from : pos_part year + neg_part y ≡ neg_part year + pos_part y + january m =
      omega (arith, e) in
    record {
      era = div_euclid y 400;
      start = y;
      q = rem_euclid y 400;
      in_era = in_era;
      from = from;
      far = near;
      inside = inside_lem y year (div_euclid y 400) (rem_euclid y 400) m d from in_era h;
    }

-- The months of the year of a date, from the calendar's lengths.
pub date_index :
    (year : ℤ) (m d : ℕ)
    → IsDate year m d
    → (month_of (day_index m d) ≡ m) × (day_of (day_index m d) ≡ d) × (day_index m d ≤ 365)
unfolding days_in_month
date_index year m d h = ground arith

-- The day number of a date, from its place.
pub placed-IsDay :
    (year : ℤ) (m d : ℕ) (h : IsDate year m d)
    → (let p = place year m d h in
        IsDay (days_from_civil year (pos m) (pos d)) p.era (days_to p.q + day_index m d))
placed-IsDay year m d h =
    let p = place year m d h in
    days_from_civil_lem year p.start p.era p.q m d p.from p.in_era
      (h.month_in.0, h.month_in.1, h.day_in.0, omega (arith, h.day_in, days_in_month-le year m))

-- `civil_from_days` gives back every date of the calendar from its day number.
pub civil_from_days-days_from_civil :
    (year : ℤ) (m d : ℕ)
    → IsDate year m d
    → civil_from_days (days_from_civil year (pos m) (pos d)) ≡ civil year (pos m) (pos d)
civil_from_days-days_from_civil year m d h =
    let p = place year m d h in
    let index = date_index year m d h in
    let back =
      civil_from_days_lem (days_from_civil year (pos m) (pos d)) p.era year p.start p.q
        (day_index m d) p.inside p.in_era (placed-IsDay year m d h) (rw index.0 p.from) in
    back ∙ rw (index.0) (rw (index.1) refl)
