-- ===== src/Budgets/Rollover.antt =====
-- frontend/src/domain/BudgetCalculator.ts: `computeRolloverBudget`. `local_month` stands for
-- `new Date(text)` in the time zone of the browser: the year and month of a time, `none` for NaN.

pub mod Evaluation
pub mod Carry
pub mod Balance
pub mod Range
use sumurai.Prelude.{
  ℕ, zero, suc, ◌+◌, ◌-◌, ◌*◌, ◌≤◌, Bool, true, false, not, ◌&&◌, ◌||◌, Option, none, some, List,
  [], ◌∷◌, if◌then◌else◌, get_or, ◌>>=◌, ltb, ◌==◌,
}
use sumurai.Prelude.Int.{ℤ, pos, ◌+ℤ◌, ◌-ℤ◌, scale, clip, ltb_ℤ, floor_div, pos_part}
use sumurai.Prelude.Text.{Text, lit, split, is_empty, or_text}
use sumurai.Types.{Transaction, Budget, BudgetFrequency, monthly, quarterly, semi_annual, annual}
use sumurai.Dates.{date_text, days_in_month, parse_int}
use sumurai.DateRanges.{MonthYearSelection}
use sumurai.Budgets.{calculate_spent}

pub record RolloverBudgetResult : Type 0 where
  pub monthly_amount : ℤ
  pub frequency : BudgetFrequency
  pub rollover : Bool
  pub period_multiplier : ℕ
  pub period_amount : ℤ
  pub month_spent : ℤ
  pub ytd_spent : ℤ
  pub prior_months_spent : ℤ
  pub prior_months_allocated : ℤ
  pub prior_carryover : ℤ
  pub available_this_month : ℤ
  pub remaining_this_month : ℤ
  pub is_over_budget : Bool
  pub percentage_used : ℤ

pub is_full_year : Option ℕ → Bool
is_full_year none = true
is_full_year (some m) = false

pub multiplier : Bool → BudgetFrequency → ℕ
multiplier true quarterly = 4
multiplier true semi_annual = 2
multiplier true annual = 1
multiplier true monthly = 12
multiplier false quarterly = 3
multiplier false semi_annual = 6
multiplier false annual = 12
multiplier false monthly = 1

-- `monthStart`, `monthEnd` and `yearStart`
pub month_start : MonthYearSelection → Text
month_start p = elim p.month [ none ↦ date_text p.year 1 1 | some m ↦ date_text p.year (m + 1) 1 ]

pub month_end : MonthYearSelection → Text
month_end p = elim p.month [
  | none ↦ date_text p.year 12 31
  | some m ↦ date_text p.year (m + 1) (days_in_month p.year (m + 1))
]

pub year_start : MonthYearSelection → Text
year_start p = date_text p.year 1 1

-- Where the rollover starts: `startYear`, and `startMonth + 1`, which is what `parseInt` reads and
-- is never below zero. `none` is NaN.
pub record RolloverStart : Type 0 where
  pub start_year : Option ℕ
  pub start_month1 : Option ℕ

pub default_start : ℕ → RolloverStart
default_start year = record { start_year = some year; start_month1 = some 1 }

-- `parts.length === 2`
start_of_parts : ℕ → List Text → RolloverStart
start_of_parts year (y ∷ m ∷ []) = record { start_year = parse_int y; start_month1 = parse_int m }
start_of_parts year _ = default_start year

start_of_time : ℕ → Option (ℕ × ℕ) → RolloverStart
start_of_time year none = default_start year
start_of_time year (some (y, m)) = record { start_year = some y; start_month1 = some (m + 1) }

-- The months of the selected year before the selected month that count, and the day and month on
-- which they start: `window n s` is n months from month s on. A comparison with NaN is false.
pub data PriorWindow : Type 0 where
  no_window : PriorWindow
  window : ℕ → ℕ → PriorWindow

prior_from : ℕ → Option ℕ → PriorWindow
prior_from m none = no_window
prior_from m (some s) = if ltb s (m + 1) then window (m + 1 - s) s else no_window

prior_year : ℕ → Option ℕ → Option ℕ → ℕ → PriorWindow
prior_year year none start_month1 m = no_window
prior_year year (some y) start_month1 m =
    if ltb y year
    then (if ltb 0 m then window m 1 else no_window)
    else if year == y
    then prior_from m start_month1
    else no_window

pub prior_window : MonthYearSelection → RolloverStart → PriorWindow
prior_window p s = elim p.month [
  | none ↦ no_window
  | some m ↦ prior_year p.year s.start_year s.start_month1 m
]

pub prior_months_count : PriorWindow → ℕ
prior_months_count no_window = 0
prior_months_count (window n s) = n

-- `Math.round((spent / available) * 100)`, a half rounded up; 0 unless 0 < available
pub percentage : ℤ → ℤ → ℤ
percentage spent available =
    if ltb_ℤ (pos 0) available
    then floor_div (scale 200 spent +ℤ available) (2 * pos_part available)
    else pos 0

pub carryover : Bool → ℕ → ℤ → ℤ → ℤ
carryover rollover count allocated spent =
    if rollover && ltb 0 count then clip (allocated -ℤ spent) else pos 0

-- The part of the body behind the sums, with the record that it returns.
pub finish : Budget → MonthYearSelection → ℤ → ℤ → ℕ → ℤ → RolloverBudgetResult
finish budget p spent ytd count prior_spent =
    let rollover = get_or budget.rollover false in
    let frequency = get_or budget.frequency monthly in
    let full = is_full_year p.month in
    let period_amount = scale (multiplier full frequency) budget.amount in
    let allocated = scale count budget.amount in
    let carry = carryover rollover count allocated prior_spent in
    let base = if full then period_amount else budget.amount in
    let available = if rollover then base +ℤ carry else base in
    let remaining = available -ℤ spent in
    record {
      monthly_amount = budget.amount;
      frequency = frequency;
      rollover = rollover;
      period_multiplier = multiplier full frequency;
      period_amount = period_amount;
      month_spent = spent;
      ytd_spent = ytd;
      prior_months_spent = prior_spent;
      prior_months_allocated = allocated;
      prior_carryover = carry;
      available_this_month = available;
      remaining_this_month = remaining;
      is_over_budget = ltb_ℤ remaining (pos 0);
      percentage_used = percentage spent available;
    }

-- `priorEndDate`, the last day of the month before the selected one
pub prior_end : MonthYearSelection → Text
prior_end p = let m = get_or p.month 0 in date_text p.year m (days_in_month p.year m)

pub prior_spent :
    Budget → List Transaction → MonthYearSelection → Option Text → PriorWindow → Option ℤ
prior_spent budget ts p sub no_window = some (pos 0)
prior_spent budget ts p sub (window n s) =
    calculate_spent ts budget.category (date_text p.year s 1) (prior_end p) sub

module _ (local_month : Text → Option (ℕ × ℕ)) where
  pub rollover_start : Budget → ℕ → RolloverStart
  rollover_start budget year =
      if not (is_empty (get_or budget.rollover_start_month []))
      then start_of_parts year (split (λ c. c == b'-') (get_or budget.rollover_start_month []))
      else if not (is_empty (get_or budget.created_at []))
      then start_of_time year (local_month (get_or budget.created_at []))
      else default_start year

  pub compute_rollover_budget :
      Budget → List Transaction → MonthYearSelection → Option Text → Option RolloverBudgetResult
  compute_rollover_budget budget ts p sub = do
    spent ← calculate_spent ts budget.category (month_start p) (month_end p) sub
    ytd ← calculate_spent ts budget.category (year_start p) (month_end p) sub
    let prior = prior_window p (rollover_start budget p.year)
    before ← prior_spent budget ts p sub prior
    some (finish budget p spent ytd (prior_months_count prior) before)
