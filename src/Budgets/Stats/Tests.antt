-- ===== src/Budgets/Stats/Tests.antt =====
-- Runs of `computeStats`.
use sumurai.Prelude.{◌≡◌, refl, List, [], ◌∷◌, length, map, filter}
use sumurai.Prelude.Int.{ℤ, pos, ◌-ℤ◌, ◌+ℤ◌, scale}
use sumurai.Prelude.Text.{Text, lit}
use sumurai.Dates.{Date, date}
use sumurai.Dates.Evaluation.{dates}
use sumurai.Budgets.Stats.{
  ComputedBudget, BudgetStats, compute_stats, stats_of, total_from, add_budget, days_left,
  is_near_limit, calculate_remaining,
}
use sumurai.Budgets.Stats.Summary.{over, sum_by, compute_stats_totals}

abbrev computed : Text → ℤ → ℤ → ComputedBudget
computed c amount spent = record { id = c; category = c; amount = amount; spent = spent }

abbrev three : List ComputedBudget
three =
    computed (lit "a") (pos 100) (pos 85)
    ∷ computed (lit "b") (pos 50) (pos 60)
    ∷ computed (lit "c") (pos 70) (pos 10)
    ∷ []

abbrev today : Date
today = date 2024 2 20

abbrev stats : BudgetStats
stats = compute_stats three 2024 1 today

stats_run :
    (stats.total_budgeted ≡ pos 220)
    × (stats.over_budget_count ≡ 1)
    × (stats.days_remaining ≡ 9)
    × (stats.near_limit_categories ≡ lit "a" ∷ [])
unfolding compute_stats stats_of total_from add_budget days_left is_near_limit ◌+ℤ◌ ◌-ℤ◌ scale dates
stats_run = (refl, refl, refl, refl)

compute_stats_totals_example :
    (stats.total_budgeted ≡ sum_by (λ b. b.amount) three)
    × (stats.total_spent ≡ sum_by (λ b. b.spent) three)
    × (stats.variance ≡ stats.total_budgeted -ℤ stats.total_spent)
    × (stats.remaining ≡ calculate_remaining stats.total_budgeted stats.total_spent)
    × (stats.over_budget_categories ≡ map (λ b. b.category) (filter over three))
    × (stats.over_budget_count ≡ length stats.over_budget_categories)
compute_stats_totals_example = compute_stats_totals three 2024 1 today
