-- ===== src/Vm/Dates/Days.antt =====
-- `days_from_civil` and `civil_from_days` of src/vm/native/java/civil.rs by era, year of the era and day of the
-- year.
use dexvm.Prelude.{ℕ, ◌+◌, ◌*◌, ◌^◌, ◌<◌, ◌≤◌, ◌≡◌, arith}
use dexvm.Prelude.Int.{
  ℤ, pos, pos_part, neg_part, ◌+ℤ◌, ◌-ℤ◌, ◌*ℤ◌, wrap32, wrap32_id, +ℤ_parts, -ℤ_parts, *ℤ_parts,
}
use dexvm.Vm.Dates.{days_from_civil}
use dexvm.Vm.Dates.Years.{
  days_to, day_index, january, IsEra, march_year_lem, era_of_year_lem, year_in_era, day_of_year_lem,
  day_of_era_lem, january-le, one_part,
}

abbrev pub IsMonthDay : ℕ → ℕ → Type 0
IsMonthDay m d = (1 ≤ m) × (m ≤ 12) × (1 ≤ d) × (d ≤ 62)

-- `days` counts day `x` of an era, from 1970 on.
abbrev pub IsDay : ℤ → ℤ → ℕ → Type 0
IsDay days era x =
    pos_part days + neg_part era * 146097 + 719468 ≡ neg_part days + pos_part era * 146097 + x

index-lt : (m d : ℕ) → IsMonthDay m d → day_index m d < 400
index-lt m d valid = ground arith

-- The sum of the days behind the eras, taken back to 1970.
IsDay-sum :
    (era : ℤ) (x : ℕ)
    → x < 200000
    → pos_part era + neg_part era ≤ 13000
    → IsDay (wrap32 (era *ℤ 146097 +ℤ pos x -ℤ pos 719468)) era x
IsDay-sum era x h near =
    let whole = era *ℤ 146097 +ℤ pos x -ℤ pos 719468 in
    let parts : IsDay whole era x = omega (
      arith,
      *ℤ_parts era 146097,
      +ℤ_parts (era *ℤ 146097) (pos x),
      -ℤ_parts (era *ℤ 146097 +ℤ pos x) (pos 719468),
    ) in
    let small =
      one_part whole 2000000000 (omega (arith, parts, near, h)) (omega (arith, parts, near, h)) in
    rw (wrap32_id whole (omega (arith, small)) (omega (arith, small))) parts

pub days_from_civil_lem :
    (year y era : ℤ) (q m d : ℕ)
    → pos_part year + neg_part y ≡ neg_part year + pos_part y + january m
    → IsEra 400 y era q
    → IsMonthDay m d
    → IsDay (days_from_civil year (pos m) (pos d)) era (days_to q + day_index m d)
unfolding days_from_civil
days_from_civil_lem year y era q m d start h valid =
    let r = day_index m d in
    let near : pos_part year + neg_part year < 2 ^ 30 = omega (
      arith,
      one_part year 6000000 (omega (arith, start, h.sum, h.below, h.near, january-le m))
          (omega (arith, start, h.sum, h.below, h.near, january-le m)),
    ) in
    let march = march_year_lem year y m start near in
    let e1 = era_of_year_lem y era q h in
    let e2 = year_in_era y era q h in
    let e3 = day_of_year_lem m d (valid.0, valid.1) (valid.2, valid.3) in
    let e4 = day_of_era_lem q r h.below in
    rw march (
      rw e1 (
        rw e2 (
          rw e3 (
            rw e4 (
              IsDay-sum era (days_to q + r) (omega (arith, h.below, index-lt m d valid)) h.near)))))
