-- ===== src/Budgets/Rollover/Range.antt =====
-- frontend/src/utils/dateRanges.ts and frontend/src/domain/BudgetCalculator.ts: the dashboard and
-- the budgets take the same days for a selection.
use sumurai.Prelude.{ℕ, ◌+◌, ◌≤◌, ◌<◌, ◌≡◌, refl, Option, none, some, get_or, arith}
use sumurai.Dates.{days_in_month}
use sumurai.Dates.Order.{date_text-iso}
use sumurai.DateRanges.{MonthYearSelection, compute_month_range, first_of_month, last_of_month}
use sumurai.Budgets.Rollover.{month_start, month_end}
use sumurai.Dates.Order.{days_in_month_small}

abbrev pub selection : ℕ → Option ℕ → MonthYearSelection
selection year month = record { year = year; month = month }

-- For a year of four digits, the range that is shown for a month or a full year is the range whose
-- spending the budgets of that selection count.
pub compute_month_range-month_start :
    (year : ℕ) (month : Option ℕ)
    → 1000 ≤ year
    → year < 10_000
    → get_or month 0 < 12
    → compute_month_range (selection year month) ≡ record {
      start = month_start (selection year month);
      end = month_end (selection year month);
    }
unfolding days_in_month month_start month_end compute_month_range first_of_month last_of_month
compute_month_range-month_start year none h k l =
    rw
      (
        date_text-iso year 1 1 h k (omega arith) (omega arith),
        date_text-iso year 12 31 h k (omega arith) (omega arith),
      )
      refl
compute_month_range-month_start year (some m) h k l =
    rw
      (
        date_text-iso year (m + 1) 1 h k (omega arith) (omega arith),
        date_text-iso year (m + 1) _ h k (omega arith) (days_in_month_small year (m + 1)),
      )
      refl
