-- ===== src/Cost/Calendar/Months.antt =====
-- Months and `addMonthsClamped`: later months give later dates, in the month that was asked for.
use versi_go.Prelude.{
  ℕ, zero, suc, ◌+◌, ◌-◌, ◌*◌, ◌/◌, ◌%◌, ◌≤◌, ◌<◌, ◌≡◌, refl, ap, ◌∙◌, ap, ◌∙◌, Bool, inl, inr,
  arith, ltb, min, Bool-cases,
}
use versi_go.Cost.Calendar.{
  Date, ms_per_day, is_leap_year, days_in, month_length, days_before, walk, month_day, at_day,
  add_months_clamped,
}

days_in-bounds : (month : ℕ) (leap : Bool) → (28 ≤ days_in month leap) × (days_in month leap ≤ 31)
days_in-bounds month leap = ground arith

pub month_length-bounds : (month : ℕ) → (28 ≤ month_length month) × (month_length month ≤ 31)
unfolding month_length
month_length-bounds month = days_in-bounds (month % 12) (is_leap_year (1970 + month / 12))

pub days_before-suc : (month : ℕ) → days_before (suc month) ≡ days_before month + month_length month
unfolding days_before
days_before-suc month = refl

-- Every month is at least four weeks long.
pub days_before-add : (month n : ℕ) → days_before month + n * 28 ≤ days_before (n + month)
days_before-add month zero = let e : 0 + month ≡ month = omega arith in rw e (omega arith)
days_before-add month (suc n) =
    let e : suc n + month ≡ suc (n + month) = omega arith in
    rw e (
      omega (
        arith,
        days_before-add month n,
        days_before-suc (n + month),
        month_length-bounds (n + month),
      ))

-- Before a later month stand all days of an earlier one.
pub days_before-lt :
    (month later : ℕ) → month < later → days_before month + month_length month ≤ days_before later
days_before-lt month later h =
    let e : (later - suc month) + suc month ≡ later = omega arith in
    let wide = days_before-add (suc month) (later - suc month) in
    omega (arith, days_before-suc month, ap days_before e)

walk_lem :
    (fuel month days : ℕ)
    → days < fuel
    → (days_before (walk fuel month days).month + (walk fuel month days).day
        ≡ days_before month + days)
      × ((walk fuel month days).day < month_length (walk fuel month days).month)
unfolding walk
walk_lem zero month days h = absurd (omega arith)
walk_lem (suc fuel) month days h = ground (
  arith,
  month_length-bounds month,
  days_before-suc month,
  walk_lem fuel (suc month) (days - month_length month),
)

-- A day has one month and one place in it.
MonthDay-unique :
    (m n d e : ℕ)
    → d < month_length m
    → e < month_length n
    → days_before m + d ≡ days_before n + e
    → (m ≡ n) × (d ≡ e)
MonthDay-unique m n d e h k same = elim (Bool-cases (ltb m n)) [
  | inl lt ↦ absurd (omega (arith, days_before-lt m n (ground arith)))
  | inr ge ↦ elim (Bool-cases (ltb n m)) [
    | inl gt ↦ absurd (omega (arith, days_before-lt n m (ground arith)))
    | inr le ↦
        let same_month : m ≡ n = ground arith in
        (same_month, omega (arith, ap days_before same_month))
  ]
]

-- Month and day of a date add up to its day, and the day lies in the month.
pub month_day_lem :
    (date : Date)
    → (days_before (month_day date).month + (month_day date).day ≡ date / ms_per_day)
      × ((month_day date).day < month_length (month_day date).month)
unfolding month_day
month_day_lem date =
    let (total, inside) = walk_lem (suc (date / ms_per_day)) 0 (date / ms_per_day) (omega arith) in
    let none_before : days_before 0 ≡ 0 = unfold days_before in refl in
    (omega (arith, none_before), inside)

-- Reading back the month and day that were put in.
pub month_day-at_day :
    (date : Date) (month day : ℕ)
    → 1 ≤ day
    → day ≤ month_length month
    → ((month_day (at_day date month day)).month ≡ month)
      × ((month_day (at_day date month day)).day + 1 ≡ day)
      × (at_day date month day % ms_per_day ≡ date % ms_per_day)
unfolding at_day
month_day-at_day date month day h k =
    let (total, inside) = month_day_lem (at_day date month day) in
    let days : at_day date month day / ms_per_day ≡ days_before month + (day - 1) = omega arith in
    let (same_month, same_day) =
      MonthDay-unique (month_day (at_day date month day)).month month
        (month_day (at_day date month day)).day (day - 1) inside (omega arith) (total ∙ days) in
    (same_month, omega arith, omega arith)

at_day_lem :
    (date : Date) (month day : ℕ)
    → at_day date month day ≡ (days_before month + (day - 1)) * ms_per_day + date % ms_per_day
unfolding at_day
at_day_lem date month day = refl

-- `addMonthsClamped` lands in the month that lies `months` later, on the day of the date itself or,
-- where that month is shorter, on its last day, at the same time of day; by no months it changes
-- nothing. So periods counted from one anchor do not drift.
pub month_day-add_months_clamped :
    (date : Date) (months : ℕ)
    → ((month_day (add_months_clamped date months)).month ≡ (month_day date).month + months)
      × ((month_day (add_months_clamped date months)).day + 1
          ≡ min ((month_day date).day + 1) (month_length ((month_day date).month + months)))
      × (add_months_clamped date months % ms_per_day ≡ date % ms_per_day)
      × (add_months_clamped date 0 ≡ date)
unfolding add_months_clamped
month_day-add_months_clamped date months =
    let month = (month_day date).month + months in
    let day = min ((month_day date).day + 1) (month_length month) in
    let (same_month, same_day, same_time) =
      month_day-at_day date month day (omega (arith, month_length-bounds month)) (omega arith) in
    (same_month, same_day, same_time, at_itself date)
  where
    at_itself : (date : Date) → add_months_clamped date 0 ≡ date
    at_itself date =
        let (total, inside) = month_day_lem date in
        let same : (month_day date).month + 0 ≡ (month_day date).month = omega arith in
        rw same (
          omega (
            arith,
            total,
            inside,
            at_day_lem date (month_day date).month
                (min ((month_day date).day + 1) (month_length (month_day date).month)),
          ))

-- One month more is at least four weeks later.
pub add_months_clamped-suc :
    (date : Date) (months : ℕ)
    → add_months_clamped date months + 28 * ms_per_day ≤ add_months_clamped date (suc months)
unfolding add_months_clamped at_day
add_months_clamped-suc date months =
    let m = (month_day date).month + months in
    let e : (month_day date).month + suc months ≡ suc m = omega arith in
    rw e (omega (arith, days_before-suc m, month_length-bounds m, month_length-bounds (suc m)))
