-- ===== src/Vm/Dates/Months.antt =====
-- The day numbers of src/vm/native/java/civil.rs follow the calendar from month to month.
use dexvm.Prelude.{ℕ, suc, ◌+◌, ◌*◌, ◌<◌, ◌≤◌, ◌≡◌, ◌≢◌, refl, ◌∙◌, sym, arith}
use dexvm.Prelude.{ltb, ◌==◌, if◌then◌else◌, Bool-cases, inl, inr}
use dexvm.Prelude.Int.{
  ℤ, pos, pos_part, neg_part, ◌+ℤ◌, ◌-ℤ◌, ◌*ℤ◌, +ℤ_parts, eq_of_parts, tdiv, wrap32,
}
use native.Mathlib.Decide.{ℕ_discrete}
use dexvm.Vm.Dates.{
  days_from_civil, march_year, era_of_year, shifted_month, day_of_year, day_of_era,
}
use dexvm.Vm.Dates.Years.{days_to, day_index, january, IsEra, one_part}
use dexvm.Vm.Dates.Days.{days_from_civil_lem}
use dexvm.Vm.Dates.RoundTrip.{is_leap, days_in_month, days_in_month-le, IsDate, leap_lem, place}

-- The month behind a month.
abbrev pub next_month : ℕ → ℕ
next_month m = if m == 12 then 1 else m + 1

abbrev pub next_year : ℤ → ℕ → ℤ
next_year year m = year +ℤ (if m == 12 then pos 1 else pos 0)

-- The index runs on from month to month, but from February to March.
index_carry :
    (year : ℤ) (m e : ℕ)
    → (1 ≤ m) × (m ≤ 12)
    → m ≢ 2
    → 1 ≤ e
    → day_index m (days_in_month year m + e) ≡ day_index (next_month m) e
unfolding days_in_month
index_carry year m e h other some_days = ground arith

february_index :
    (year : ℤ) (e : ℕ)
    → 1 ≤ e
    → day_index 2 (days_in_month year 2 + e) + 1 ≡ (if is_leap year then 366 else 365) + e
unfolding days_in_month
february_index year e some_days = ground arith

-- The March of a year starts the next year of the era, or the next era.
march-IsEra :
    (start year era : ℤ) (q : ℕ)
    → IsEra 400 start era q
    → pos_part year + neg_part start ≡ neg_part year + pos_part start + 1
    → pos_part era + neg_part era < 13000
    → (era' : ℤ) × (q' : ℕ) × (IsEra 400 year era' q')
      × (pos_part era' * 146097 + days_to q' + neg_part era * 146097
          ≡ neg_part era' * 146097 + pos_part era * 146097 + days_to (suc q))
march-IsEra start year era q h e near = elim (ℕ_discrete q 399) [
  | yes last ↦ (
    era +ℤ pos 1,
    0,
    record {
      below = omega arith;
      sum = omega (arith, h.sum, e, last, +ℤ_parts era (pos 1));
      near =
          one_part (era +ℤ pos 1) 13000 (omega (arith, near, +ℤ_parts era (pos 1)))
            (omega (arith, near, +ℤ_parts era (pos 1)));
    },
    rw last (omega (arith, +ℤ_parts era (pos 1))),
  )
  | no other ↦ (
    era,
    suc q,
    record { below = omega (arith, h.below, other); sum = omega (arith, h.sum, e); near = h.near },
    omega arith,
  )
]

-- The next month starts in the year that has the months up to it, unless it is March.
same_start :
    (start year : ℤ) (m : ℕ)
    → pos_part year + neg_part start ≡ neg_part year + pos_part start + january m
    → (1 ≤ m) × (m ≤ 12)
    → m ≢ 2
    → (let y = next_year year m in
        pos_part y + neg_part start ≡ neg_part y + pos_part start + january (next_month m))
unfolding ◌+ℤ◌
same_start start year m e h other = ground arith

carry_same :
    (year : ℤ) (m d e : ℕ)
    → IsDate year m d
    → (1 ≤ e) × (e ≤ 31)
    → m ≢ 2
    → days_from_civil year (pos m) (pos (days_in_month year m + e))
      ≡ days_from_civil (next_year year m) (pos (next_month m)) (pos e)
carry_same year m d e h some_days other =
    let p = place year m d h in
    let len = days_in_month year m in
    let there =
      days_from_civil_lem year p.start p.era p.q m (len + e) p.from p.in_era
        (h.month_in.0, h.month_in.1, omega arith, omega (arith, days_in_month-le year m)) in
    let then_ =
      days_from_civil_lem (next_year year m) p.start p.era p.q (next_month m) e
        (same_start p.start year m p.from h.month_in other) p.in_era
        (ground arith, ground (arith, h.month_in), some_days.0, omega (arith, some_days)) in
    eq_of_parts _ _ (omega (arith, there, then_, index_carry year m e h.month_in other some_days.0))

carry_february :
    (year : ℤ) (m d e : ℕ)
    → IsDate year m d
    → (1 ≤ e) × (e ≤ 31)
    → m ≡ 2
    → days_from_civil year (pos m) (pos (days_in_month year m + e))
      ≡ days_from_civil (next_year year m) (pos (next_month m)) (pos e)
carry_february year m d e h some_days p =
    let at = place year m d h in
    let late : january m ≡ 1 = rw p refl in
    let from : pos_part year + neg_part at.start ≡ neg_part year + pos_part at.start + 1 =
      omega (arith, at.from, late) in
    let (era', q', in_era, days) =
      march-IsEra at.start year at.era at.q at.in_era from (omega (arith, at.far)) in
    let there =
      days_from_civil_lem year at.start at.era at.q 2 (days_in_month year 2 + e) from at.in_era
        (omega arith, omega arith, omega arith, omega (arith, days_in_month-le year 2)) in
    let behind =
      days_from_civil_lem year year era' q' 3 e (omega arith) in_era
        (omega arith, omega arith, some_days.0, omega (arith, some_days)) in
    let leap = leap_lem at.start year at.era at.q from at.in_era in
    let same : year +ℤ pos 0 ≡ year = eq_of_parts _ _ (omega (arith, +ℤ_parts year (pos 0))) in
    rw p (
      rw same (
        eq_of_parts _ _
          (omega (arith, there, behind, leap, days, february_index year e some_days.0))))

-- A day behind the end of a month is a day of the next month.
pub days_from_civil_carry :
    (year : ℤ) (m d e : ℕ)
    → IsDate year m d
    → (1 ≤ e) × (e ≤ 31)
    → days_from_civil year (pos m) (pos (days_in_month year m + e))
      ≡ days_from_civil (next_year year m) (pos (next_month m)) (pos e)
days_from_civil_carry year m d e h some_days = elim (ℕ_discrete m 2) [
  | no other ↦ carry_same year m d e h some_days other
  | yes p ↦ carry_february year m d e h some_days p
]

day_step :
    (year : ℤ) (m d : ℕ)
    → IsDate year m d
    → days_from_civil year (pos m) (pos (d + 1)) ≡ days_from_civil year (pos m) (pos d) +ℤ pos 1
day_step year m d h =
    let p = place year m d h in
    let short = days_in_month-le year m in
    let here =
      days_from_civil_lem year p.start p.era p.q m d p.from p.in_era
        (h.month_in.0, h.month_in.1, h.day_in.0, omega (arith, short, h.day_in)) in
    let behind =
      days_from_civil_lem year p.start p.era p.q m (d + 1) p.from p.in_era
        (h.month_in.0, h.month_in.1, omega arith, omega (arith, short, h.day_in)) in
    eq_of_parts _ _ (
      omega
        (arith, here, behind, h.day_in, +ℤ_parts (days_from_civil year (pos m) (pos d)) (pos 1)))

epoch : days_from_civil (pos 1970) (pos 1) (pos 1) ≡ pos 0
unfolding days_from_civil march_year era_of_year shifted_month day_of_year day_of_era tdiv wrap32
    ◌+ℤ◌ ◌-ℤ◌ ◌*ℤ◌
epoch = refl

-- The date behind a date of the calendar.
abbrev pub day_after : ℤ → ℕ → ℕ → ℤ × ℕ × ℕ
day_after year m d =
    if ltb d (days_in_month year m) then (year, m, d + 1) else (next_year year m, next_month m, 1)

-- The day number of the date behind a date of the calendar is one more, across the ends of months, leap years
-- and centuries, and the first of January of 1970 has the number 0.
pub days_from_civil-IsNumbering :
    (year : ℤ) (m d : ℕ)
    → IsDate year m d
    → (let t = day_after year m d in
        days_from_civil (t.0) (pos (t.1)) (pos (t.2))
        ≡ days_from_civil year (pos m) (pos d) +ℤ pos 1)
      × (days_from_civil (pos 1970) (pos 1) (pos 1) ≡ pos 0)
days_from_civil-IsNumbering year m d h = (
  elim (Bool-cases (ltb d (days_in_month year m))) [
    | inl inside ↦ rw inside (day_step year m d h)
    | inr last ↦
        (let whole : days_in_month year m ≡ d = ground arith in
          let e = days_from_civil_carry year m d 1 h (omega arith, omega arith) in
          rw last (sym e ∙ rw whole (day_step year m d h)))
  ],
  epoch,
)
