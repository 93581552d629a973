-- ===== src/Examples/Calendars.antt =====
-- Dates of src/vm/native/java/civil.rs and of the calendars upon it.
use dexvm.Prelude.{ℕ, ◌-◌, ◌≡◌, refl, arith, some}
use dexvm.Prelude.Int.{pos, negsuc, ◌+ℤ◌, ◌-ℤ◌}
use dexvm.Vm.Dates.{civil, days_from_civil, civil_from_days, components, compose}
use dexvm.Vm.Dates.RoundTrip.{IsDate, days_in_month, civil_from_days-days_from_civil}
use dexvm.Vm.Dates.Instants.{compose-components}
use dexvm.Vm.Dates.Months.{day_after, days_from_civil-IsNumbering}
use dexvm.Vm.Dates.Calendar.{composed, calendar_add, ddmmyyyy_days}
use dexvm.Vm.Dates.Fields.{Moment, shown, calendar_add-january, ddmmyyyy_days_shift}

leap_day : IsDate (pos 2024) 2 29
unfolding days_in_month
leap_day = record {
  near = omega arith;
  month_in = (omega arith, omega arith);
  day_in = (omega arith, omega arith);
}

civil_from_days-days_from_civil_example :
    civil_from_days (days_from_civil (pos 2024) (pos 2) (pos 29))
    ≡ civil (pos 2024) (pos 2) (pos 29)
civil_from_days-days_from_civil_example = civil_from_days-days_from_civil (pos 2024) 2 29 leap_day

days_from_civil-IsNumbering_example :
    (let t = day_after (pos 2024) 2 29 in
      days_from_civil (t.0) (pos (t.1)) (pos (t.2))
      ≡ days_from_civil (pos 2024) (pos 2) (pos 29) +ℤ pos 1)
    × (days_from_civil (pos 1970) (pos 1) (pos 1) ≡ pos 0)
days_from_civil-IsNumbering_example = days_from_civil-IsNumbering (pos 2024) 2 29 leap_day

-- A second before 1970.
compose-components_example :
    (let t = components (negsuc 999) in
      compose t.date.year (t.date.month -ℤ pos 1) t.date.day t.hour t.minute t.second t.milli
      ≡ negsuc 999)
compose-components_example = compose-components (negsuc 999) (omega arith)

january_end : IsDate (pos 2023) 1 31
unfolding days_in_month
january_end = record {
  near = omega arith;
  month_in = (omega arith, omega arith);
  day_in = (omega arith, omega arith);
}

abbrev last_of_january : Moment
last_of_january = record {
  year = pos 2023;
  month = 1;
  day = 31;
  hour = 12;
  minute = 0;
  second = 0;
  milli = 0;
  is_date = january_end;
  is_time = (omega arith, omega arith, omega arith, omega arith);
}

calendar_add-january_example :
    components (calendar_add (composed (shown last_of_january)) (pos 2) (pos 1))
    ≡ record (shown last_of_january) {
      date = civil (pos 2023) (pos 3) (pos (31 - days_in_month (pos 2023) 2));
    }
calendar_add-january_example = calendar_add-january last_of_january refl refl

ddmmyyyy_days_shift_example :
    (n : ℕ) × (ddmmyyyy_days 31 1 (pos 2023) ≡ some n)
    × (pos n ≡ days_from_civil (pos 2023) (pos 1) (pos 31) +ℤ pos 719468)
ddmmyyyy_days_shift_example = ddmmyyyy_days_shift 2023 1 31 january_end (omega arith)
