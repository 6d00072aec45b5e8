-- ===== src/Cost/Calendar.antt =====
-- The `Date` of ECMAScript as cost-schedule.ts uses it, and its `addMonthsClamped`. A date is the
-- number of milliseconds since the epoch, `getTime()`; local time is UTC; and no date lies before 1970.
-- A month is counted from January 1970.
pub mod Months
mod Tests
use versi_go.Prelude.{
  ℕ, zero, suc, ◌+◌, ◌-◌, ◌*◌, ◌/◌, ◌%◌, Bool, true, false, not, ◌&&◌, ◌||◌, leb, ltb, ◌==◌,
  if◌then◌else◌, min,
}

abbrev pub Date : Type 0
Date = ℕ

abbrev pub ms_per_day : ℕ
ms_per_day = 86_400_000

abbrev pub is_leap_year : ℕ → Bool
is_leap_year year = (year % 4 == 0) && (not (year % 100 == 0) || (year % 400 == 0))

-- Days of a month of the year; 0 is January.
abbrev pub days_in : ℕ → Bool → ℕ
days_in month leap =
    if month == 1
    then (if leap then 29 else 28)
    else if month == 3
    then 30
    else if month == 5
    then 30
    else if month == 8
    then 30
    else if month == 10
    then 30
    else 31

unfoldable pub month_length : ℕ → ℕ
month_length month = days_in (month % 12) (is_leap_year (1970 + month / 12))

-- The number of days before the first of the month.
unfoldable pub days_before : ℕ → ℕ
days_before zero = 0
days_before (suc month) = days_before month + month_length month

-- A day as its month and the days of the month that lie before it.
pub record MonthDay : Type 0 where
  pub month : ℕ
  pub day : ℕ

-- From the first of `month`, `days` on. Every month has a day, so `days` bounds the months passed.
unfoldable pub walk : ℕ → ℕ → ℕ → MonthDay
walk zero month days = record { month = month; day = days }
walk (suc fuel) month days =
    let rest = walk fuel (suc month) (days - month_length month) in
    if ltb days (month_length month) then record { month = month; day = days } else rest

unfoldable pub month_day : Date → MonthDay
month_day date = walk (suc (date / ms_per_day)) 0 (date / ms_per_day)

-- `getFullYear()` and `getMonth()`
unfoldable pub get_full_year : Date → ℕ
get_full_year date = 1970 + (month_day date).month / 12

unfoldable pub get_month : Date → ℕ
get_month date = (month_day date).month % 12

-- The date with a month and a day (from 1) put in for those of `date`; the time of day stays.
unfoldable pub at_day : Date → ℕ → ℕ → Date
at_day date month day = (days_before month + (day - 1)) * ms_per_day + date % ms_per_day

-- The day is set to 1 before the months are added, and the clamped day is set behind that.
unfoldable pub add_months_clamped : Date → ℕ → Date
add_months_clamped date months =
    let day = (month_day date).day + 1 in
    let month = (month_day date).month + months in at_day date month (min day (month_length month))
