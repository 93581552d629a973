-- ===== src/Vm/Dates/Fields.antt =====
-- What the fields of a java.util.Calendar of src/vm/native/java/util/calendar.rs do, and the dates of
-- src/vm/native/java/time/local_date.rs.
use dexvm.Prelude.{ℕ, ◌+◌, ◌-◌, ◌*◌, ◌/◌, ◌%◌, ◌^◌, ◌<◌, ◌≤◌, ◌≡◌, refl, ap, ◌∙◌, sym, arith}
use dexvm.Prelude.{ltb, leb, if◌then◌else◌, true, false, not, ◌&&◌, ◌||◌, some}
use dexvm.Prelude.Int.{
  ℤ, pos, negsuc, pos_part, neg_part, ◌+ℤ◌, ◌-ℤ◌, ◌*ℤ◌, -ℤ_parts, +ℤ_parts, *ℤ_parts, eq_of_parts,
  leb_ℤ, div_euclid, rem_euclid, tdiv, wrap32, wrap32_id,
}
use dexvm.Vm.Dates.{civil, DateTime, day_ms, days_from_civil, components, compose}
use dexvm.Vm.Dates.Years.{
  days_to, day_index, january, month_place, day_of_era_lem, IsEra, january-le, one_part,
}
use dexvm.Vm.Dates.Days.{days_from_civil_lem}
use dexvm.Vm.Dates.RoundTrip.{
  days_in_month, days_in_month-le, IsDate, civil_from_days-days_from_civil,
}
use dexvm.Vm.Dates.Months.{days_from_civil_carry}
use dexvm.Vm.Dates.Instants.{month_of_year}
use dexvm.Vm.Dates.Calendar.{
  composed, with_field, calendar_set, calendar_add, added, march_number, ddmmyyyy_days,
}

-- A date of the calendar with a time of the day.
pub record Moment : Type 0 where
  pub year : ℤ
  pub month : ℕ
  pub day : ℕ
  pub hour : ℕ
  pub minute : ℕ
  pub second : ℕ
  pub milli : ℕ
  pub is_date : IsDate year month day
  pub is_time : (hour < 24) × (minute < 60) × (second < 60) × (milli < 1000)

abbrev pub shown : Moment → DateTime
shown t = record {
  date = civil t.year (pos t.month) (pos t.day);
  hour = pos t.hour;
  minute = pos t.minute;
  second = pos t.second;
  milli = pos t.milli;
}

day_of_instant :
    (a b : ℤ) (r : ℕ)
    → r < day_ms
    → pos_part a + neg_part b * day_ms ≡ neg_part a + pos_part b * day_ms + r
    → (div_euclid a day_ms ≡ b) × (rem_euclid a day_ms ≡ r)
unfolding div_euclid rem_euclid
day_of_instant (pos a) (pos b) r h e = (ground arith, ground arith)
day_of_instant (pos a) (negsuc b) r h e = (ground arith, ground arith)
day_of_instant (negsuc a) (pos b) r h e = (ground arith, ground arith)
day_of_instant (negsuc a) (negsuc b) r h e = (ground arith, ground arith)

-- The milliseconds of the day.
abbrev time_of : Moment → ℕ
time_of t = t.hour * 3600000 + t.minute * 60000 + t.second * 1000 + t.milli

month_back : (m : ℕ) → m ≤ 12 → wrap32 (pos m -ℤ pos 1) ≡ pos m -ℤ pos 1
month_back m h =
    wrap32_id (pos m -ℤ pos 1)
      (omega (
        arith,
        one_part (pos m -ℤ pos 1) 12 (omega (arith, -ℤ_parts (pos m) (pos 1)))
            (omega (arith, -ℤ_parts (pos m) (pos 1))),
      ))
      (omega (
        arith,
        one_part (pos m -ℤ pos 1) 12 (omega (arith, -ℤ_parts (pos m) (pos 1)))
            (omega (arith, -ℤ_parts (pos m) (pos 1))),
      ))

-- The time of a day behind the start of the day.
behind_day :
    (start : ℤ) (t : Moment)
    → start +ℤ pos t.hour *ℤ 3600000 +ℤ pos t.minute *ℤ 60000 +ℤ pos t.second *ℤ 1000 +ℤ pos t.milli
      ≡ start +ℤ pos (time_of t)
behind_day start t = eq_of_parts _ _ (omega (arith, +ℤ_parts, *ℤ_parts))

composed_lem :
    (t : Moment)
    → composed (shown t)
      ≡ days_from_civil t.year (pos t.month) (pos t.day) *ℤ day_ms +ℤ pos (time_of t)
unfolding composed compose
composed_lem t =
    let months = month_of_year t.year t.month t.is_date.month_in t.is_date.near in
    rw (month_back t.month t.is_date.month_in.1) (
      rw (months.0)
        (rw (months.1) (behind_day (days_from_civil t.year (pos t.month) (pos t.day) *ℤ day_ms) t)))

clock_lem :
    (t : Moment)
    → (time_of t / 3600000 ≡ t.hour)
      × (time_of t % 3600000 / 60000 ≡ t.minute)
      × (time_of t % 60000 / 1000 ≡ t.second)
      × (time_of t % 1000 ≡ t.milli)
      × (time_of t < day_ms)
clock_lem t = (
  omega (arith, t.is_time),
  omega (arith, t.is_time),
  omega (arith, t.is_time),
  omega (arith, t.is_time),
  omega (arith, t.is_time),
)

-- The parts of a composed date and time are the ones that it was composed from.
pub components-composed : (t : Moment) → components (composed (shown t)) ≡ shown t
unfolding components
components-composed t =
    let days = days_from_civil t.year (pos t.month) (pos t.day) in
    let clock = clock_lem t in
    let whole = composed_lem t in
    let split =
      day_of_instant (days *ℤ day_ms +ℤ pos (time_of t)) days (time_of t) clock.4
        (omega (arith, +ℤ_parts (days *ℤ day_ms) (pos (time_of t)), *ℤ_parts days day_ms)) in
    rw whole (
      rw (split.0) (
        rw (split.1) (
          rw (civil_from_days-days_from_civil t.year t.month t.day t.is_date)
            (rw (clock.0) (rw (clock.1) (rw (clock.2) (rw (clock.3) refl)))))))

-- Where the fields of a calendar with one of them set are those of a date and time, `calendar_set` leaves a
-- calendar with exactly these fields: the one that was set, and the others as they were.
calendar_set-with_field :
    (millis : ℤ) (field : ℕ) (value : ℤ) (t : Moment)
    → with_field (components millis) field value ≡ some (shown t)
    → components (calendar_set millis (pos field) value) ≡ shown t
unfolding calendar_set
calendar_set-with_field millis field value t e = rw (e, calendar_set) (components-composed t)

march_day :
    (year : ℤ)
    → (1 ≤ 31 - days_in_month year 2) × (31 - days_in_month year 2 ≤ days_in_month year 3)
unfolding days_in_month
march_day year = (ground arith, ground arith)

february_year : (year : ℤ) → pos_part year + neg_part year ≤ 5000000 → IsDate year 2 1
unfolding days_in_month
february_year year near = record {
  near = near;
  month_in = (omega arith, omega arith);
  day_in = (omega arith, ground arith);
}

-- The 31st of February.
february_days :
    (year : ℤ)
    → pos_part year + neg_part year ≤ 5000000
    → days_from_civil year (pos 2) (pos 31)
      ≡ days_from_civil year (pos 3) (pos (31 - days_in_month year 2))
february_days year near =
    let len = days_in_month year 2 in
    let e = march_day year in
    let whole : len + (31 - len) ≡ 31 = omega (arith, days_in_month-le year 2) in
    let same : year +ℤ pos 0 ≡ year = eq_of_parts _ _ (omega (arith, +ℤ_parts year (pos 0))) in
    let carry =
      days_from_civil_carry year 2 1 (31 - len) (february_year year near) (e.0, omega arith) in
    rw whole at (rw same at carry)

-- The date 31 - 28 or 31 - 29 days into March.
into_march : (t : Moment) → Moment
into_march t = record t {
  month = 3;
  day = 31 - days_in_month t.year 2;
  is_date = record {
    near = t.is_date.near;
    month_in = (omega arith, omega arith);
    day_in = march_day t.year;
  };
}

month_behind : wrap32 (pos 1 -ℤ pos 1 +ℤ pos 1) ≡ pos 2 -ℤ pos 1
unfolding wrap32 ◌-ℤ◌ ◌+ℤ◌
month_behind = refl

february_lem :
    (t : Moment)
    → compose t.year
        (wrap32 (pos 1 -ℤ pos 1 +ℤ pos 1))
        (pos 31)
        (pos t.hour)
        (pos t.minute)
        (pos t.second)
        (pos t.milli)
      ≡ composed (shown (into_march t))
unfolding compose into_march
february_lem t =
    let months = month_of_year t.year 2 (omega arith, omega arith) t.is_date.near in
    rw month_behind (
      rw (months.0) (
        rw (months.1) (
          behind_day (days_from_civil t.year (pos 2) (pos 31) *ℤ day_ms) t
          ∙ rw (february_days t.year t.is_date.near) (sym (composed_lem (into_march t))))))

-- From the last day of January, `calendar_add` of one month leads into March, by as many days as February
-- is short of 31, where java.util.Calendar stays at the last day of February.
pub calendar_add-january :
    (t : Moment)
    → t.month ≡ 1
    → t.day ≡ 31
    → components (calendar_add (composed (shown t)) (pos 2) (pos 1))
      ≡ record (shown t) { date = civil t.year (pos 3) (pos (31 - days_in_month t.year 2)) }
unfolding calendar_add added into_march
calendar_add-january t first last =
    rw (components-composed t, calendar_add)
      (rw first (rw last (ap components (february_lem t) ∙ components-composed (into_march t))))

march_number_lem :
    (s p d : ℕ)
    → s ≤ 5000000
    → p < 12
    → (1 ≤ d) × (d ≤ 31)
    → march_number (pos s) p d
      ≡ pos (s / 400 * 146097 + (days_to (s % 400) + ((153 * p + 2) / 5 + d - 1)))
unfolding march_number tdiv
march_number_lem s p d hs hp hd =
    let era : pos s -ℤ pos (s / 400) *ℤ 400 ≡ pos (s % 400) =
      eq_of_parts _ _
        (omega (arith, -ℤ_parts (pos s) (pos (s / 400) *ℤ 400), *ℤ_parts (pos (s / 400)) 400)) in
    let doy : pos ((153 * p + 2) / 5) +ℤ pos d -ℤ pos 1 ≡ pos ((153 * p + 2) / 5 + d - 1) =
      eq_of_parts _ _ (omega (arith, +ℤ_parts, -ℤ_parts)) in
    let sign : leb_ℤ (pos 0) (pos s) ≡ true = ground arith in
    rw sign (
      rw era (
        rw doy (
          rw (day_of_era_lem (s % 400) ((153 * p + 2) / 5 + d - 1) (omega arith))
            (eq_of_parts _ _ (omega (arith, +ℤ_parts, *ℤ_parts))))))

march_start :
    (y m : ℕ)
    → 1 ≤ y
    → ((if ltb m 3 then pos y -ℤ pos 1 else pos y) ≡ pos (y - january m))
      × ((if ltb m 3 then m + 9 else m - 3) ≡ month_place m)
unfolding ◌-ℤ◌
march_start y m h = (ground arith, ground arith)

valid_test :
    (m d : ℕ)
    → (1 ≤ m) × (m ≤ 12)
    → (1 ≤ d) × (d ≤ 31)
    → (not (leb 1 d && leb d 31) || not (leb 1 m && leb m 12)) ≡ false
valid_test m d hm hd = ground arith

ddmmyyyy_lem :
    (y m d : ℕ)
    → (1 ≤ m) × (m ≤ 12)
    → (1 ≤ d) × (d ≤ 31)
    → (1 ≤ y) × (y ≤ 5000000)
    → (let start = y - january m in
        ddmmyyyy_days d m (pos y)
        ≡ some (start / 400 * 146097 + (days_to (start % 400) + day_index m d)))
unfolding ddmmyyyy_days rem_euclid
ddmmyyyy_lem y m d hm hd hy =
    let start = y - january m in
    let n = start / 400 * 146097 + (days_to (start % 400) + day_index m d) in
    let begins = march_start y m hy.0 in
    let place : month_place m < 12 = ground arith in
    let fits : n % 2 ^ 32 ≡ n = omega (arith, place) in
    rw (valid_test m d hm hd) (
      rw (begins.0) (
        rw (begins.1)
          (rw (march_number_lem start (month_place m) d (omega arith) place hd) (ap some fits))))

-- The number of a date from the year 1 on that `parse_ddmmyyyy` returns is 719468 more than the number of
-- days since 1970 that it is documented to return.
pub ddmmyyyy_days_shift :
    (y m d : ℕ)
    → IsDate (pos y) m d
    → 1 ≤ y
    → (n : ℕ) × (ddmmyyyy_days d m (pos y) ≡ some n)
      × (pos n ≡ days_from_civil (pos y) (pos m) (pos d) +ℤ pos 719468)
ddmmyyyy_days_shift y m d h later =
    let start = y - january m in
    let in_era : IsEra 400 (pos start) (pos (start / 400)) (start % 400) = record {
      below = omega arith;
      sum = omega arith;
      near = omega (arith, h.near);
    } in
    let day =
      days_from_civil_lem (pos y) (pos start) (pos (start / 400)) (start % 400) m d
        (omega (arith, january-le m)) in_era
        (
          h.month_in.0,
          h.month_in.1,
          h.day_in.0,
          omega (arith, h.day_in, days_in_month-le (pos y) m),
        ) in
    let n = start / 400 * 146097 + (days_to (start % 400) + day_index m d) in
    (
      n,
      ddmmyyyy_lem y m d (h.month_in.0, h.month_in.1)
          (h.day_in.0, omega (arith, h.day_in, days_in_month-le (pos y) m))
          (later, omega (arith, h.near)),
      eq_of_parts _ _
          (omega (arith, day, +ℤ_parts (days_from_civil (pos y) (pos m) (pos d)) (pos 719468))),
    )
