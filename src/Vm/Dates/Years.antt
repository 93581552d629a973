-- ===== src/Vm/Dates/Years.antt =====
-- What the steps of src/vm/native/java/civil.rs compute, on natural numbers: a day stands in an era of 400 years,
-- in a year of the era that starts in March, at an index from 0.
use dexvm.Prelude.{ℕ, suc, ◌+◌, ◌-◌, ◌*◌, ◌/◌, ◌^◌, ◌<◌, ◌≤◌, ◌≡◌, arith}
use dexvm.Prelude.{leb, if◌then◌else◌}
use dexvm.Prelude.Int.{
  ℤ, pos, negsuc, pos_part, neg_part, ◌+ℤ◌, ◌-ℤ◌, ◌*ℤ◌, tdiv, wrap32, wrap32_id, -ℤ_parts, *ℤ_parts,
  eq_of_parts,
}
use dexvm.Vm.Dates.{march_year, era_of_year, shifted_month, day_of_year, day_of_era}

-- The days of an era before its year `q`.
abbrev pub days_to : ℕ → ℕ
days_to q = 365 * q + q / 4 - q / 100 + q / 400

-- The place of a month behind March, and the index of a day in a year.
abbrev pub month_place : ℕ → ℕ
month_place m = if leb 3 m then m - 3 else m + 9

abbrev pub day_index : ℕ → ℕ → ℕ
day_index m d = (153 * month_place m + 2) / 5 + d - 1

-- 1 in January and February, which belong to the year that started in March before.
abbrev pub january : ℕ → ℕ
january m = if leb m 2 then 1 else 0

-- The year of the era is found from the day of the era, and the other way.
pub year_lem :
    (q x : ℕ)
    → q < 400
    → days_to q ≤ x
    → x < days_to (suc q)
    → (x - x / 1460 + x / 36524 - x / 146096) / 365 ≡ q
year_lem q x h lo hi = omega arith

pub year_bounds :
    (x : ℕ)
    → x < 146097
    → (let q = (x - x / 1460 + x / 36524 - x / 146096) / 365 in
        (q < 400) × (days_to q ≤ x) × (x < days_to (suc q)))
year_bounds x h = omega arith

-- `a` is `b` eras of `n` and `r` more, and `b` is far from the bounds of the words.
pub record IsEra (n : ℕ) (a b : ℤ) (r : ℕ) : Type 0 where
  pub below : r < n
  pub sum : pos_part a + neg_part b * n ≡ neg_part a + pos_part b * n + r
  pub near : pos_part b + neg_part b ≤ 13000

pub march_year_lem :
    (year y : ℤ) (m : ℕ)
    → pos_part year + neg_part y ≡ neg_part year + pos_part y + january m
    → pos_part year + neg_part year < 2 ^ 30
    → march_year year (pos m) ≡ y
unfolding march_year ◌-ℤ◌ wrap32
march_year_lem year y m e near = ground arith

pub era_of_year_lem : (y era : ℤ) (q : ℕ) → IsEra 400 y era q → era_of_year y ≡ era
unfolding era_of_year tdiv ◌-ℤ◌ wrap32
era_of_year_lem (pos n) (pos k) q h = ground arith
era_of_year_lem (pos n) (negsuc k) q h = ground arith
era_of_year_lem (negsuc n) (pos k) q h = ground arith
era_of_year_lem (negsuc n) (negsuc k) q h = ground arith

pub year_in_era : (y era : ℤ) (q : ℕ) → IsEra 400 y era q → wrap32 (y -ℤ era *ℤ 400) ≡ pos q
year_in_era y era q h =
    let e : y -ℤ era *ℤ 400 ≡ pos q =
      eq_of_parts _ _ (omega (arith, -ℤ_parts y (era *ℤ 400), *ℤ_parts era 400, h.sum)) in
    rw e (wrap32_id (pos q) (omega (arith, h.below)) (omega arith))

pub day_of_year_lem :
    (m d : ℕ)
    → (1 ≤ m) × (m ≤ 12)
    → (1 ≤ d) × (d ≤ 62)
    → day_of_year (pos m) (pos d) ≡ pos (day_index m d)
unfolding day_of_year shifted_month wrap32 tdiv ◌+ℤ◌ ◌-ℤ◌ ◌*ℤ◌
day_of_year_lem m d hm hd = ground arith

pub day_of_era_lem : (q r : ℕ) → q < 400 → day_of_era (pos q) (pos r) ≡ pos (days_to q + r)
unfolding day_of_era tdiv ◌+ℤ◌ ◌-ℤ◌ ◌*ℤ◌
day_of_era_lem q r h = ground arith

pub january-le : (m : ℕ) → january m ≤ 1
january-le m = ground arith

-- One of the parts of an integer is 0.
pub one_part :
    (a : ℤ) (n : ℕ)
    → pos_part a ≤ n + neg_part a
    → neg_part a ≤ n + pos_part a
    → pos_part a + neg_part a ≤ n
one_part (pos a) n h k = omega arith
one_part (negsuc a) n h k = omega arith
