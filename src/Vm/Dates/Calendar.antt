-- ===== src/Vm/Dates/Calendar.antt =====
-- java.util.Calendar of src/vm/native/java/util/calendar.rs, whose state is the number of milliseconds since
-- 1970, and the dd/mm/yyyy dates of src/vm/native/java/time/local_date.rs. calendar.rs has copies of its
-- own of the functions of civil.rs; both are the ones of `Dates`.
use dexvm.Prelude.{
  ℕ, ◌+◌, ◌*◌, ◌/◌, ◌^◌, ◌-◌, ◌&&◌, ◌||◌, not, ltb, leb, ◌==◌, if◌then◌else◌, Option, none, some,
}
use dexvm.Prelude.Int.{
  ℤ, pos, negsuc, ◌+ℤ◌, ◌-ℤ◌, ◌*ℤ◌, leb_ℤ, tdiv, trem, div_euclid, rem_euclid, wrap32, wrap64,
}
use dexvm.Vm.Dates.{DateTime, day_ms, days_from_civil, day_of_era, components, compose}

-- `compose` with the fields of a date and time, whose month counts from 1.
unfoldable pub composed : DateTime → ℤ
composed t =
    compose t.date.year (wrap32 (t.date.month -ℤ pos 1)) t.date.day t.hour t.minute t.second t.milli

-- `calendar_get`: `days` are those of the instant, `t` its parts.
unfoldable pub field_of : ℤ → DateTime → ℕ → ℤ
field_of days t field =
    if field == 1
    then t.date.year
    else if field == 2
    then t.date.month -ℤ pos 1
    else if field == 5
    then t.date.day
    else if field == 6
    then wrap32 (days -ℤ days_from_civil t.date.year (pos 1) (pos 1) +ℤ pos 1)
    else if field == 7
    then pos (rem_euclid (days +ℤ pos 4) 7 + 1)
    else if field == 9
    then (if leb_ℤ (pos 12) t.hour then pos 1 else pos 0)
    else if field == 10
    then trem t.hour 12
    else if field == 11
    then t.hour
    else if field == 12
    then t.minute
    else if field == 13
    then t.second
    else if field == 14
    then t.milli
    else pos 0

unfoldable pub calendar_get : ℤ → ℤ → ℤ
calendar_get millis (pos field) = field_of (div_euclid millis day_ms) (components millis) field
calendar_get millis (negsuc field) = pos 0

-- The field that `calendar_set` changes, or none.
unfoldable pub with_field : DateTime → ℕ → ℤ → Option DateTime
with_field t field value =
    if field == 1
    then some (record t { date = record t.date { year = value } })
    else if field == 2
    then some (record t { date = record t.date { month = wrap32 (value +ℤ pos 1) } })
    else if field == 5
    then some (record t { date = record t.date { day = value } })
    else if field == 9
    then some (record t { hour = wrap32 (trem t.hour 12 +ℤ value *ℤ 12) })
    else if field == 10
    then some (record t { hour = wrap32 (tdiv t.hour 12 *ℤ 12 +ℤ value) })
    else if field == 11
    then some (record t { hour = value })
    else if field == 12
    then some (record t { minute = value })
    else if field == 13
    then some (record t { second = value })
    else if field == 14
    then some (record t { milli = value })
    else none

-- The state behind `calendar_set`.
unfoldable pub calendar_set : ℤ → ℤ → ℤ → ℤ
calendar_set millis (pos field) value = elim (with_field (components millis) field value) [
  | none ↦ millis
  | some t ↦ composed t
]
calendar_set millis (negsuc field) value = millis

unfoldable pub calendar_set_fields : ℤ → ℤ → ℤ → ℤ → ℤ → ℤ → ℤ → ℤ
calendar_set_fields millis year month day hour minute second =
    compose year month day hour minute second (components millis).milli

-- `millis + i64::from(amount) * unit`
abbrev later : ℤ → ℤ → ℕ → ℤ
later millis amount unit = wrap64 (millis +ℤ amount *ℤ unit)

unfoldable pub added : ℤ → DateTime → ℕ → ℤ → ℤ
added millis t field amount =
    if field == 1
    then composed (record t { date = record t.date { year = wrap32 (t.date.year +ℤ amount) } })
    else if field == 2
    then compose t.date.year (wrap32 (t.date.month -ℤ pos 1 +ℤ amount)) t.date.day t.hour t.minute
        t.second t.milli
    else if (field == 3) || (field == 4)
    then later millis amount (7 * day_ms)
    else if leb 5 field && leb field 7
    then later millis amount day_ms
    else if (field == 10) || (field == 11)
    then later millis amount 3600000
    else if field == 12
    then later millis amount 60000
    else if field == 13
    then later millis amount 1000
    else if field == 14
    then later millis amount 1
    else millis

unfoldable pub calendar_add : ℤ → ℤ → ℤ → ℤ
calendar_add millis (pos field) amount = added millis (components millis) field amount
calendar_add millis (negsuc field) amount = millis

-- The end of `parse_ddmmyyyy` on the three numbers of the text; the cast is to `u32`. The divisions by
-- 400 round down by the test in front of them, and the month and the day are not negative.
unfoldable pub march_number : ℤ → ℕ → ℕ → ℤ
march_number y0 m0 d =
    let era = tdiv (if leb_ℤ (pos 0) y0 then y0 else y0 -ℤ pos 399) 400 in
    let doy = pos ((153 * m0 + 2) / 5) +ℤ pos d -ℤ pos 1 in
    era *ℤ 146097 +ℤ day_of_era (y0 -ℤ era *ℤ 400) doy

unfoldable pub ddmmyyyy_days : ℕ → ℕ → ℤ → Option ℕ
ddmmyyyy_days d m y =
    if not (leb 1 d && leb d 31) || not (leb 1 m && leb m 12)
    then none
    else some (
        rem_euclid
          (march_number (if ltb m 3 then y -ℤ pos 1 else y) (if ltb m 3 then m + 9 else m - 3) d)
          (2 ^ 32))
