-- ===== src/DateRanges.antt =====
-- frontend/src/utils/dateRanges.ts. A month of a selection is 0 to 11, as `Date` has it. Today comes
-- as an argument.
use sumurai.Prelude.{ℕ, ◌+◌, ◌-◌, Option, none, some, if◌then◌else◌, ltb}
use sumurai.Prelude.Text.{Text}
use sumurai.Dates.{date, days_in_month, iso}

pub record MonthYearSelection : Type 0 where
  pub year : ℕ
  pub month : Option ℕ

pub data DateRangeKey : Type 0 where
  current_month past_2_months past_3_months past_6_months past_year all_time : DateRangeKey

pub record DateRange : Type 0 where
  pub start : Text
  pub end : Text

pub get_current_month_selection : ℕ → ℕ → MonthYearSelection
get_current_month_selection year month = record { year = year; month = some month }

-- `fmt(localDate(year, month0, 1))`, for a month that has been brought into 0 to 11
unfoldable pub first_of_month : ℕ → ℕ → Text
first_of_month year month0 = iso (date year (month0 + 1) 1)

-- `fmt(localDate(year, month0 + 1, 0))`
unfoldable pub last_of_month : ℕ → ℕ → Text
last_of_month year month0 = iso (date year (month0 + 1) (days_in_month year (month0 + 1)))

unfoldable pub compute_month_range : MonthYearSelection → DateRange
compute_month_range s = elim s.month [
  | none ↦ record { start = first_of_month s.year 0; end = last_of_month s.year 11 }
  | some m ↦ record { start = first_of_month s.year m; end = last_of_month s.year m }
]

-- `firstOfMonth(y, m - back)`: `Date` takes a month below zero to be one of the year before.
pub first_of_month_back : ℕ → ℕ → ℕ → Text
first_of_month_back y m back =
    if ltb m back then first_of_month (y - 1) (m + 12 - back) else first_of_month y (m - back)

-- how many months before the current one a range starts
pub months_back : DateRangeKey → Option ℕ
months_back DateRangeKey.current_month = some 0
months_back DateRangeKey.past_2_months = some 1
months_back DateRangeKey.past_3_months = some 2
months_back DateRangeKey.past_6_months = some 5
months_back DateRangeKey.past_year = some 11
months_back DateRangeKey.all_time = none

range_back : ℕ → ℕ → Option ℕ → Option DateRange
range_back y m none = none
range_back y m (some back) =
    some (record { start = first_of_month_back y m back; end = last_of_month y m })

-- No key, like `all-time`, gives no range.
pub compute_date_range : ℕ → ℕ → Option DateRangeKey → Option DateRange
compute_date_range y m none = none
compute_date_range y m (some key) = range_back y m (months_back key)
