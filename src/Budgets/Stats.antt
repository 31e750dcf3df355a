-- ===== src/Budgets/Stats.antt =====
-- frontend/src/domain/BudgetCalculator.ts: `computeStats`, `calculateRemaining` and `isOverBudget`.
-- Today is an argument of `compute_stats`; a month is 0 to 11, as in `Date`.
pub mod Summary
mod Tests
use sumurai.Prelude.{
  ℕ, ◌+◌, ◌-◌, ◌*◌, Bool, true, false, not, ◌&&◌, ◌||◌, List, [], ◌∷◌, ◌++◌, map, if◌then◌else◌,
  ltb, ◌==◌, take, filter,
}
use sumurai.Prelude.Int.{ℤ, pos, ◌+ℤ◌, ◌-ℤ◌, scale, clip, ltb_ℤ}
use sumurai.Prelude.Text.{Text}
use sumurai.Dates.{Date, days_in_month}

pub record ComputedBudget : Type 0 where
  pub id : Text
  pub category : Text
  pub amount : ℤ
  pub spent : ℤ

pub record BudgetStats : Type 0 where
  pub total_budgeted : ℤ
  pub total_spent : ℤ
  pub remaining : ℤ
  pub variance : ℤ
  pub over_budget_count : ℕ
  pub over_budget_categories : List Text
  pub days_remaining : ℕ
  pub total_days : ℕ
  pub active_budget_categories : List Text
  pub near_limit_categories : List Text

pub calculate_remaining : ℤ → ℤ → ℤ
calculate_remaining budget spent = clip (budget -ℤ spent)

pub is_over_budget : ℤ → ℤ → Bool
is_over_budget budget spent = ltb_ℤ budget spent

-- the accumulator of the `reduce`
pub record Totals : Type 0 where
  pub budgeted : ℤ
  pub spent : ℤ
  pub over_count : ℕ
  pub over_categories : List Text

abbrev pub no_totals : Totals
no_totals = record { budgeted = pos 0; spent = pos 0; over_count = 0; over_categories = [] }

pub add_budget : Totals → ComputedBudget → Totals
add_budget acc b =
    let over = ltb_ℤ b.amount b.spent in
    record {
      budgeted = acc.budgeted +ℤ b.amount;
      spent = acc.spent +ℤ b.spent;
      over_count = if over then acc.over_count + 1 else acc.over_count;
      over_categories =
          if over then acc.over_categories ++ b.category ∷ [] else acc.over_categories;
    }

pub total_from : Totals → List ComputedBudget → Totals
total_from acc [] = acc
total_from acc (b ∷ bs) = total_from (add_budget acc b) bs

-- `spent / amount` in [0.8, 1), over whole cents
pub is_near_limit : ComputedBudget → Bool
is_near_limit b =
    ltb_ℤ (pos 0) b.amount
    && not (ltb_ℤ (scale 10 b.spent) (scale 8 b.amount))
    && ltb_ℤ b.spent b.amount

-- `month0` of `year`, and today, whose month counts from 1
pub days_left : ℕ → ℕ → Date → ℕ
days_left year month0 now =
    let last_day = days_in_month year (month0 + 1) in
    if (now.year == year) && (now.month == month0 + 1)
    then last_day - now.day
    else if ltb now.year year || ((now.year == year) && ltb now.month (month0 + 1))
    then last_day
    else 0

abbrev pub empty_stats : ℕ → BudgetStats
empty_stats last_day = record {
  total_budgeted = pos 0;
  total_spent = pos 0;
  remaining = pos 0;
  variance = pos 0;
  over_budget_count = 0;
  over_budget_categories = [];
  days_remaining = 0;
  total_days = last_day;
  active_budget_categories = [];
  near_limit_categories = [];
}

pub stats_of : List ComputedBudget → Totals → ℕ → ℕ → BudgetStats
stats_of budgets totals days last_day = record {
  total_budgeted = totals.budgeted;
  total_spent = totals.spent;
  remaining = clip (totals.budgeted -ℤ totals.spent);
  variance = totals.budgeted -ℤ totals.spent;
  over_budget_count = totals.over_count;
  over_budget_categories = totals.over_categories;
  days_remaining = days;
  total_days = last_day;
  active_budget_categories = map (λ b. b.category) budgets;
  near_limit_categories = map (λ b. b.category) (take 3 (filter is_near_limit budgets));
}

pub compute_stats : List ComputedBudget → ℕ → ℕ → Date → BudgetStats
compute_stats [] year month0 now = empty_stats (days_in_month year (month0 + 1))
compute_stats (b ∷ bs) year month0 now =
    stats_of (b ∷ bs) (total_from no_totals (b ∷ bs)) (days_left year month0 now)
      (days_in_month year (month0 + 1))
