-- ===== src/Vm/Dates/FromDays.antt =====
-- `civil_from_days` of src/vm/native/java/civil.rs by era and day of the era.
use dexvm.Prelude.{ℕ, suc, ◌+◌, ◌-◌, ◌*◌, ◌/◌, ◌^◌, ◌<◌, ◌≤◌, ◌≡◌, ap, ◌∙◌, arith}
use dexvm.Prelude.{leb, if◌then◌else◌}
use dexvm.Prelude.Int.{
  ℤ, pos, negsuc, pos_part, neg_part, ◌+ℤ◌, ◌-ℤ◌, ◌*ℤ◌, leb_ℤ, tdiv, wrap32, wrap64, wrap32_id,
  wrap64_id, +ℤ_parts, -ℤ_parts, *ℤ_parts, eq_of_parts,
}
use dexvm.Vm.Dates.{civil, early, era_of_days, year_of_era, civil_of_year, civil_from_days}
use dexvm.Vm.Dates.Years.{days_to, january, year_lem, IsEra, january-le, one_part}
use dexvm.Vm.Dates.Days.{IsDay}

-- The year of the era, and the month and day of the year.
abbrev pub year_place : ℕ → ℕ
year_place x = (x - x / 1460 + x / 36524 - x / 146096) / 365

abbrev pub month_of : ℕ → ℕ
month_of r = let mp = (5 * r + 2) / 153 in if leb mp 9 then mp + 3 else mp - 9

abbrev pub day_of : ℕ → ℕ
day_of r = r - (153 * ((5 * r + 2) / 153) + 2) / 5 + 1

era_of_days_lem : (z era : ℤ) (x : ℕ) → IsEra 146097 z era x → era_of_days z ≡ era
unfolding era_of_days tdiv ◌-ℤ◌ wrap64
era_of_days_lem (pos n) (pos k) x h = ground arith
era_of_days_lem (pos n) (negsuc k) x h = ground arith
era_of_days_lem (negsuc n) (pos k) x h = ground arith
era_of_days_lem (negsuc n) (negsuc k) x h = ground arith

year_of_era_lem : (x : ℕ) → x < 146097 → year_of_era (pos x) ≡ pos (year_place x)
unfolding year_of_era tdiv ◌+ℤ◌ ◌-ℤ◌
year_of_era_lem x h = ground arith

day_left_lem :
    (x q : ℕ)
    → days_to q ≤ x
    → q < 400
    → pos x -ℤ (pos q *ℤ 365 +ℤ tdiv (pos q) 4 -ℤ tdiv (pos q) 100) ≡ pos (x - days_to q)
unfolding tdiv ◌+ℤ◌ ◌-ℤ◌ ◌*ℤ◌
day_left_lem x q h k = ground arith

month_day_lem :
    (r : ℕ)
    → r ≤ 365
    → (let mp = tdiv (pos r *ℤ 5 +ℤ pos 2) 153 in
        (pos r -ℤ tdiv (mp *ℤ 153 +ℤ pos 2) 5 +ℤ pos 1 ≡ pos (day_of r))
        × (mp +ℤ (if leb_ℤ mp (pos 9) then pos 3 else negsuc 8) ≡ pos (month_of r)))
unfolding tdiv ◌+ℤ◌ ◌-ℤ◌ ◌*ℤ◌
month_day_lem r h = (ground arith, ground arith)

month_day_small : (r : ℕ) → r ≤ 365 → (month_of r < 2 ^ 31) × (day_of r < 2 ^ 31)
month_day_small r h = (ground arith, ground arith)

early_sum :
    (y year : ℤ) (m : ℕ)
    → pos_part year + neg_part y ≡ neg_part year + pos_part y + january m
    → y +ℤ early (pos m) ≡ year
unfolding ◌+ℤ◌
early_sum y year m e = ground arith

early_lem :
    (y year : ℤ) (m : ℕ)
    → pos_part year + neg_part y ≡ neg_part year + pos_part y + january m
    → pos_part year + neg_part year < 2 ^ 30
    → wrap32 (y +ℤ early (pos m)) ≡ year
early_lem y year m e near =
    let sum : y +ℤ early (pos m) ≡ year = early_sum y year m e in
    rw sum (wrap32_id year (omega arith) (omega arith))

civil_eq : {y y' m m' d d' : ℤ} → y ≡ y' → m ≡ m' → d ≡ d' → civil y m d ≡ civil y' m' d'
civil_eq p q r = cc

pub civil_of_year_lem :
    (y year : ℤ) (r : ℕ)
    → r ≤ 365
    → pos_part year + neg_part y ≡ neg_part year + pos_part y + january (month_of r)
    → pos_part year + neg_part year < 2 ^ 30
    → civil_of_year y (pos r) ≡ civil year (pos (month_of r)) (pos (day_of r))
unfolding civil_of_year
civil_of_year_lem y year r h e near =
    let parts = month_day_lem r h in
    let m = month_of r in
    let d = day_of r in
    let small : (m < 2 ^ 31) × (d < 2 ^ 31) = month_day_small r h in
    rw (parts.0) (
      rw (parts.1) (
        civil_eq (early_lem y year m e near) (wrap32_id (pos m) small.0 (omega arith))
          (wrap32_id (pos d) small.1 (omega arith))))

small_days : (z era : ℤ) (x : ℕ) → IsEra 146097 z era x → pos_part z + neg_part z ≤ 2000000000
small_days z era x h =
    one_part z 2000000000 (omega (arith, h.sum, h.near)) (omega (arith, h.sum, h.near))

small_year :
    (y year era : ℤ) (q j : ℕ)
    → IsEra 400 y era q
    → pos_part year + neg_part y ≡ neg_part year + pos_part y + j
    → j ≤ 1
    → pos_part year + neg_part year ≤ 6000000
small_year y year era q j h start one =
    one_part year 6000000 (omega (arith, h.sum, h.near)) (omega (arith, h.sum, h.near))

-- `civil_from_days` finds the year of the era and the day of the year.
pub civil_from_days_lem :
    (days era year y : ℤ) (q r : ℕ)
    → days_to q + r < days_to (suc q)
    → IsEra 400 y era q
    → IsDay days era (days_to q + r)
    → pos_part year + neg_part y ≡ neg_part year + pos_part y + january (month_of r)
    → civil_from_days days ≡ civil year (pos (month_of r)) (pos (day_of r))
unfolding civil_from_days
civil_from_days_lem days era year y q r fits in_era counted start =
    let x = days_to q + r in
    let h : x < 146097 = omega (arith, in_era.below, fits) in
    let z = days +ℤ pos 719468 in
    let z_era : IsEra 146097 z era x = record {
      below = h;
      sum = omega (arith, +ℤ_parts days (pos 719468), counted);
      near = in_era.near;
    } in
    let z_small = small_days z era x z_era in
    let e1 = wrap64_id z (omega (arith, z_small)) (omega (arith, z_small)) in
    let e2 = era_of_days_lem z era x z_era in
    let e3 : z -ℤ era *ℤ 146097 ≡ pos x =
      eq_of_parts _ _ (omega (arith, -ℤ_parts z (era *ℤ 146097), *ℤ_parts era 146097, z_era.sum)) in
    let place : year_place x ≡ q = year_lem q x in_era.below (omega arith) fits in
    let e4 = year_of_era_lem x h ∙ ap pos place in
    let left : x - days_to q ≡ r = omega arith in
    let e5 = day_left_lem x q (omega arith) in_era.below ∙ ap pos left in
    let e6 : pos q +ℤ era *ℤ 400 ≡ y =
      eq_of_parts _ _
        (omega (arith, +ℤ_parts (pos q) (era *ℤ 400), *ℤ_parts era 400, in_era.sum)) in
    let year_small =
      small_year y year era q (january (month_of r)) in_era start (january-le (month_of r)) in
    rw e1 (
      rw e2 (
        rw e3 (
          rw e4 (
            rw e5 (
              rw e6 (
                civil_of_year_lem y year r (omega (arith, fits, in_era.below)) start
                  (omega (arith, year_small))))))))
