-- ===== src/Budgets/Evaluation.antt =====
-- What a run of the budget functions unfolds, for their tests.
use sumurai.Prelude.Int.{◌+ℤ◌, ◌-ℤ◌, neg, scale, floor_div}
use sumurai.Prelude.Text.{compare_text, le_text, eq, split}
use sumurai.Categories.Evaluation.{categories}
use sumurai.Amounts.Evaluation.{amounts}
use sumurai.Dates.Evaluation.{dates}
use sumurai.Budgets.{
  same_name, primary_text, detailed_text, primary_matches, friendly_matches, major_matches,
  matches_subcategory, matches_category, counts_towards, iso_day, in_range, filter_range,
  sum_spending, calculate_spent,
}

unfoldable pub spending : Unit {0}
unfolding ◌+ℤ◌ ◌-ℤ◌ neg scale floor_div compare_text le_text eq split categories amounts dates
    same_name primary_text detailed_text primary_matches friendly_matches major_matches
    matches_subcategory matches_category counts_towards iso_day in_range filter_range sum_spending
    calculate_spent
spending = tt
