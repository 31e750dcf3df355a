-- ===== src/BudgetList/Months.antt =====
-- frontend/src/features/budgets/hooks/useBudgets.ts: the month that is shown, and its days as
-- `toISOString` gives them.
pub mod Range
use sumurai.Prelude.{ℕ, ◌+◌, ◌-◌, Bool, if◌then◌else◌, ltb, ◌==◌}
use sumurai.Prelude.Text.{Text}
use sumurai.Dates.{Date, date, days_in_month, iso}
use sumurai.DateRanges.{DateRange}

-- the first day of a month, at midnight in local time; `month` is 0 to 11
pub record Month : Type 0 where
  pub year : ℕ
  pub month : ℕ

pub normalize_month : Date → Month
normalize_month d = record { year = d.year; month = d.month - 1 }

pub go_to_previous_month : Month → Month
go_to_previous_month m =
    if m.month == 0
    then record { year = m.year - 1; month = 11 }
    else record m { month = m.month - 1 }

pub go_to_next_month : Month → Month
go_to_next_month m =
    if m.month == 11
    then record { year = m.year + 1; month = 0 }
    else record m { month = m.month + 1 }

pub day_before : Date → Date
day_before d =
    if ltb 1 d.day
    then record d { day = d.day - 1 }
    else if ltb 1 d.month
    then date d.year (d.month - 1) (days_in_month d.year (d.month - 1))
    else date (d.year - 1) 12 31

-- `toISOString().slice(0, 10)` of a midnight in local time. When the clock is ahead of UTC it is still
-- the day before there.
pub utc_day : Bool → Date → Date
utc_day is_ahead d = if is_ahead then day_before d else d

-- whether the clock is ahead of UTC on the first and on the last day
pub get_month_range : Bool → Bool → Month → DateRange
get_month_range is_ahead_first is_ahead_last m = record {
  start = iso (utc_day is_ahead_first (date m.year (m.month + 1) 1));
  end =
      iso (utc_day is_ahead_last (date m.year (m.month + 1) (days_in_month m.year (m.month + 1))));
}
