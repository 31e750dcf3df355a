-- ===== src/Dates/Calendar.antt =====
-- frontend/src/domain/DashboardCalculator.ts: `addDays`, `addMonthsClamped` and `daysBetween` on
-- dates, as `Date` computes them in local time, where a day that is added is the next one.
pub mod Serial
pub mod Order
use sumurai.Prelude.{ℕ, zero, suc, ◌+◌, ◌-◌, ◌*◌, ◌/◌, ◌%◌, ◌≤◌, ◌<◌, ◌≡◌, min, if◌then◌else◌, ltb}
use sumurai.Prelude.Int.{ℤ, sub_ℕ}
use sumurai.Dates.{Date, date, is_leap, days_in_month}

unfoldable pub next_day : Date → Date
next_day d =
    if ltb d.day (days_in_month d.year d.month)
    then date d.year d.month (d.day + 1)
    else if ltb d.month 12
    then date d.year (d.month + 1) 1
    else date (d.year + 1) 1 1

-- `setDate(getDate() + days)`
unfoldable pub add_days : Date → ℕ → Date
add_days d zero = d
add_days d (suc n) = next_day (add_days d n)

-- `addMonthsClamped`
unfoldable pub add_months_clamped : Date → ℕ → Date
add_months_clamped d months =
    let month0 = d.month - 1 + months in
    let year = d.year + month0 / 12 in
    let month = month0 % 12 + 1 in date year month (min d.day (days_in_month year month))

-- The number of a day, counted from the start of year 0.
unfoldable pub days_before_month : ℕ → ℕ → ℕ
days_before_month y zero = 0
days_before_month y (suc m) = days_before_month y m + days_in_month y (suc m)

unfoldable pub days_before_year : ℕ → ℕ
days_before_year zero = 0
days_before_year (suc y) = days_before_year y + (if is_leap y then 366 else 365)

unfoldable pub serial : Date → ℕ
serial d = days_before_year d.year + days_before_month d.year (d.month - 1) + d.day

-- `daysBetween`: the whole days between two midnights
unfoldable pub days_between : Date → Date → ℤ
days_between a b = sub_ℕ (serial b) (serial a)
