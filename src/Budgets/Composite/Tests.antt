-- ===== src/Budgets/Composite/Tests.antt =====
-- A run of `computeCompositeMajorBudget`.
use sumurai.Prelude.{ℕ, ◌≡◌, refl, true, false, Option, none, some, [], ◌∷◌}
use sumurai.Prelude.Int.{pos, ◌+ℤ◌}
use sumurai.Prelude.Text.{Text, lit}
use sumurai.Types.{monthly}
use sumurai.DateRanges.{MonthYearSelection}
use sumurai.Samples.{transactions, groceries}
use sumurai.Budgets.Rollover.{RolloverBudgetResult}
use sumurai.Budgets.Rollover.Evaluation.{rollovers}
use sumurai.Budgets.Composite.{
  SubcategoryBudget, CompositeBudgetResult, compute_composite_major_budget, sum_of, of_present,
  has_rollover_budget, direct_rollover, finish_composite, direct_budget, subcategory_budgets,
}
use sumurai.Budgets.Composite.Totals.{compute_composite_major_budget_month}

composites : Unit {0}
unfolding rollovers sum_of of_present has_rollover_budget direct_rollover finish_composite
    direct_budget subcategory_budgets compute_composite_major_budget
composites = tt

abbrev no_time : Text → Option (ℕ × ℕ)
no_time t = none

abbrev march_2024 : MonthYearSelection
march_2024 = record { year = 2024; month = some 2 }

-- a second budget that no transaction counts towards
abbrev organic : SubcategoryBudget
organic = record {
  subcategory = lit "Organic";
  budget = record groceries { amount = pos 700; rollover = none };
}

abbrev groceries_result : RolloverBudgetResult
groceries_result = record {
  monthly_amount = pos 5000;
  frequency = monthly;
  rollover = true;
  period_multiplier = 1;
  period_amount = pos 5000;
  month_spent = pos 2000;
  ytd_spent = pos 6000;
  prior_months_spent = pos 4000;
  prior_months_allocated = pos 10_000;
  prior_carryover = pos 6000;
  available_this_month = pos 11_000;
  remaining_this_month = pos 9000;
  is_over_budget = false;
  percentage_used = pos 18;
}

abbrev organic_result : RolloverBudgetResult
organic_result = record groceries_result {
  monthly_amount = pos 700;
  rollover = false;
  period_amount = pos 700;
  month_spent = pos 0;
  ytd_spent = pos 0;
  prior_months_spent = pos 0;
  prior_months_allocated = pos 1400;
  prior_carryover = pos 0;
  available_this_month = pos 700;
  remaining_this_month = pos 700;
  percentage_used = pos 0;
}

abbrev composite_result : CompositeBudgetResult
composite_result = record {
  monthly_amount = pos 5700;
  available_this_month = pos 11_700;
  month_spent = pos 2000;
  ytd_spent = pos 6000;
  remaining_this_month = pos 9700;
  is_over_budget = false;
  percentage_used = pos 17;
  has_rollover = true;
  total_prior_carryover = pos 6000;
  direct_budget_result = some groceries_result;
  subcategory_results = record { subcategory = lit "Organic"; result = organic_result } ∷ [];
}

compute_composite_major_budget_month_example :
    (composite_result.available_this_month
      ≡ composite_result.monthly_amount +ℤ composite_result.total_prior_carryover)
    × (composite_result.month_spent +ℤ composite_result.remaining_this_month
        ≡ composite_result.available_this_month)
unfolding composites
compute_composite_major_budget_month_example =
    compute_composite_major_budget_month no_time (lit "Groceries") (some groceries) (organic ∷ [])
      transactions march_2024 2 composite_result refl refl
