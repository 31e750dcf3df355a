-- ===== src/Budgets/Tests.antt =====
-- Runs of the budget functions.
use sumurai.Prelude.{ℕ, ◌≡◌, refl, true, false, Option, none, some, arith, inl}
use sumurai.Prelude.Int.{pos, ◌+ℤ◌}
use sumurai.Prelude.Text.{Text, lit}
use sumurai.Types.{monthly}
use sumurai.DateRanges.{MonthYearSelection}
use sumurai.Samples.{transactions, groceries}
use sumurai.Dates.{date_text}
use sumurai.Dates.Evaluation.{dates}
use sumurai.Budgets.{calculate_spent}
use sumurai.Budgets.Evaluation.{spending}
use sumurai.Budgets.Spent.{◌+?◌}
use sumurai.Budgets.Spent.Ranges.{calculate_spent_months}
use sumurai.Budgets.Rollover.{RolloverBudgetResult, compute_rollover_budget}
use sumurai.Budgets.Rollover.Carry.{compute_rollover_budget_ytd}
use sumurai.Budgets.Rollover.Balance.{IsBalanced, compute_rollover_budget-IsBalanced}
use sumurai.Budgets.Rollover.Evaluation.{rollovers}

abbrev no_time : Text → Option (ℕ × ℕ)
no_time t = none

abbrev march_2024 : MonthYearSelection
march_2024 = record { year = 2024; month = some 2 }

spends :
    calculate_spent transactions (lit "Groceries") (lit "2024-01-01") (lit "2024-03-31") none
    ≡ some (pos 6000)
unfolding spending
spends = refl

abbrev march_result : RolloverBudgetResult
march_result = record {
  monthly_amount = pos 5000;
  frequency = monthly;
  rollover = true;
  period_multiplier = 1;
  period_amount = pos 5000;
  month_spent = pos 2000;
  ytd_spent = pos 6000;
  prior_months_spent = pos 4000;
  prior_months_allocated = pos 10_000;
  prior_carryover = pos 6000;
  available_this_month = pos 11_000;
  remaining_this_month = pos 9000;
  is_over_budget = false;
  percentage_used = pos 18;
}

march_run :
    compute_rollover_budget no_time groceries transactions march_2024 none ≡ some march_result
unfolding rollovers
march_run = refl

calculate_spent_months_example :
    calculate_spent transactions (lit "Groceries") (date_text 2024 1 1) (date_text 2024 3 31) none
    ≡ calculate_spent transactions (lit "Groceries") (date_text 2024 1 1) (date_text 2024 2 29) none
      +? calculate_spent transactions
          (lit "Groceries")
          (date_text 2024 3 1)
          (date_text 2024 3 31)
          none
unfolding dates
calculate_spent_months_example =
    calculate_spent_months (lit "Groceries") none transactions 2024 1 2 3 (omega arith)
      (omega arith) (omega arith) (omega arith) (omega arith)

compute_rollover_budget_ytd_example :
    march_result.ytd_spent ≡ march_result.prior_months_spent +ℤ march_result.month_spent
unfolding rollovers
compute_rollover_budget_ytd_example =
    compute_rollover_budget_ytd no_time groceries transactions march_2024 none 2 march_result refl
      (omega arith) (omega arith) (omega arith) (inl (2023, refl, omega arith)) march_run

compute_rollover_budget-IsBalanced_example : IsBalanced march_2024 march_result
compute_rollover_budget-IsBalanced_example =
    compute_rollover_budget-IsBalanced no_time groceries transactions march_2024 none march_result
      march_run

abbrev year_2024 : MonthYearSelection
year_2024 = record { year = 2024; month = none }

abbrev year_result : RolloverBudgetResult
year_result = record march_result {
  period_multiplier = 12;
  period_amount = pos 60_000;
  month_spent = pos 6000;
  prior_months_spent = pos 0;
  prior_months_allocated = pos 0;
  prior_carryover = pos 0;
  available_this_month = pos 60_000;
  remaining_this_month = pos 54_000;
  percentage_used = pos 10;
}
