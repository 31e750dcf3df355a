-- ===== src/Budgets/Composite.antt =====
-- frontend/src/domain/BudgetCalculator.ts: `computeCompositeMajorBudget`, the budget of a major
-- category with those of its subcategories.
pub mod Totals
mod Tests
use mathlib.Core.Option
use sumurai.Prelude.{
  ℕ, suc, ◌+◌, Bool, true, false, ◌||◌, Option, none, some, List, [], ◌∷◌, if◌then◌else◌, get_or,
  ◌>>=◌, any,
}
use sumurai.Prelude.Int.{ℤ, pos, ◌+ℤ◌, ◌-ℤ◌, scale, ltb_ℤ}
use sumurai.Prelude.Text.{Text}
use sumurai.Types.{Transaction, Budget}
use sumurai.DateRanges.{MonthYearSelection}
use sumurai.Budgets.{calculate_spent}
use sumurai.Budgets.Rollover.{
  RolloverBudgetResult, is_full_year, month_start, month_end, year_start, percentage,
  compute_rollover_budget,
}

pub record SubcategoryBudget : Type 0 where
  pub subcategory : Text
  pub budget : Budget

pub record SubcategoryResult : Type 0 where
  pub subcategory : Text
  pub result : RolloverBudgetResult

pub record CompositeBudgetResult : Type 0 where
  pub monthly_amount : ℤ
  pub available_this_month : ℤ
  pub month_spent : ℤ
  pub ytd_spent : ℤ
  pub remaining_this_month : ℤ
  pub is_over_budget : Bool
  pub percentage_used : ℤ
  pub has_rollover : Bool
  pub total_prior_carryover : ℤ
  pub direct_budget_result : Option RolloverBudgetResult
  pub subcategory_results : List SubcategoryResult

-- `list.reduce((sum, x) => sum + f(x), 0)`
pub sum_of {ℓ} : {A : Type ℓ} → (A → ℤ) → ℤ → List A → ℤ
sum_of f sum [] = sum
sum_of f sum (x ∷ xs) = sum_of f (sum +ℤ f x) xs

-- `directBudget?.amount ?? 0` and the like
pub of_present {ℓ} : {A : Type ℓ} → (A → ℤ) → Option A → ℤ → ℤ
of_present f none d = d
of_present f (some a) d = f a

has_rollover_budget : Budget → Bool
has_rollover_budget b = get_or b.rollover false

direct_rollover : Option Budget → Bool
direct_rollover none = false
direct_rollover (some b) = has_rollover_budget b

pub finish_composite :
    Option Budget
    → List SubcategoryBudget
    → MonthYearSelection
    → Option RolloverBudgetResult
    → List SubcategoryResult
    → ℤ
    → ℤ
    → CompositeBudgetResult
finish_composite direct subs p direct_result sub_results spent ytd =
    let full = is_full_year p.month in
    let direct_monthly = of_present (λ b. b.amount) direct (pos 0) in
    let subs_monthly = sum_of (λ sb. sb.budget.amount) (pos 0) subs in
    let monthly = direct_monthly +ℤ subs_monthly in
    let available =
      of_present (λ r. r.available_this_month) direct_result
        (if full then scale 12 direct_monthly else direct_monthly)
      +ℤ sum_of (λ sr. sr.result.available_this_month) (pos 0) sub_results in
    let remaining = available -ℤ spent in
    record {
      monthly_amount = if full then scale 12 monthly else monthly;
      available_this_month = available;
      month_spent = spent;
      ytd_spent = ytd;
      remaining_this_month = remaining;
      is_over_budget = ltb_ℤ remaining (pos 0);
      percentage_used = percentage spent available;
      has_rollover = direct_rollover direct || any (λ sb. has_rollover_budget sb.budget) subs;
      total_prior_carryover =
          of_present (λ r. r.prior_carryover) direct_result (pos 0)
          +ℤ sum_of (λ sr. sr.result.prior_carryover) (pos 0) sub_results;
      direct_budget_result = direct_result;
      subcategory_results = sub_results;
    }

module _ (local_month : Text → Option (ℕ × ℕ)) where
  pub direct_budget :
      Option Budget → List Transaction → MonthYearSelection → Option (Option RolloverBudgetResult)
  direct_budget none ts p = some none
  direct_budget (some b) ts p = Option.map some (compute_rollover_budget local_month b ts p none)

  pub subcategory_budgets :
      List SubcategoryBudget
      → List Transaction
      → MonthYearSelection
      → Option (List SubcategoryResult)
  subcategory_budgets [] ts p = some []
  subcategory_budgets (sb ∷ sbs) ts p = do
    result ← compute_rollover_budget local_month sb.budget ts p (some sb.subcategory)
    results ← subcategory_budgets sbs ts p
    some (record { subcategory = sb.subcategory; result = result } ∷ results)

  pub compute_composite_major_budget :
      Text
      → Option Budget
      → List SubcategoryBudget
      → List Transaction
      → MonthYearSelection
      → Option CompositeBudgetResult
  compute_composite_major_budget major direct subs ts p = do
    direct_result ← direct_budget direct ts p
    sub_results ← subcategory_budgets subs ts p
    spent ← calculate_spent ts major (month_start p) (month_end p) none
    ytd ← calculate_spent ts major (year_start p) (month_end p) none
    some (finish_composite direct subs p direct_result sub_results spent ytd)
