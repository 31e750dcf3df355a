-- ===== src/Budgets/Rollover/Balance.antt =====
-- frontend/src/domain/BudgetCalculator.ts: how the results of `computeRolloverBudget` fit together.
use mathlib.Core.Option.{some-injective}
use sumurai.Prelude.{
  ◌⊎◌, inl, inr, ℕ, ◌≡◌, refl, sym, ◌∙◌, ap, ◌↔◌, inl, inr, Bool, true, false, Option, none, some,
  List, arith, if◌then◌else◌, get_or,
}
use sumurai.Prelude.Int.{ℤ, pos, ◌+ℤ◌, ◌-ℤ◌, ◌≤ℤ◌, ◌<ℤ◌, scale, ltb_ℤ, int_laws, -ℤ_parts}
use sumurai.Prelude.Text.{Text}
use sumurai.Types.{Transaction, Budget}
use sumurai.DateRanges.{MonthYearSelection}
use sumurai.Budgets.Rollover.{
  RolloverBudgetResult, no_window, is_full_year, prior_window, prior_months_count, carryover,
  finish, prior_spent, rollover_start, compute_rollover_budget,
}
use sumurai.Budgets.Rollover.Carry.{carryover_lem, run_parts}

-- What the results of a budget have to do with one another.
pub record IsBalanced (p : MonthYearSelection) (r : RolloverBudgetResult) : Type 0 where
  -- The period holds its multiple of the monthly amount.
  pub period : r.period_amount ≡ scale r.period_multiplier r.monthly_amount
  -- The carry-over is never negative.
  pub carry_nonneg : pos 0 ≤ℤ r.prior_carryover
  -- A carry-over is nothing, or what the months before left over, under a rollover.
  pub carry_cases :
      (r.prior_carryover ≡ pos 0)
      ⊎ ((r.rollover ≡ true)
          × (r.prior_months_allocated ≡ r.prior_months_spent +ℤ r.prior_carryover))
  -- The amount available is the amount of the view and the carry-over.
  pub available :
      r.available_this_month
      ≡ (if is_full_year p.month then r.period_amount else r.monthly_amount) +ℤ r.prior_carryover
  -- What is spent and what remains add up to it.
  pub remaining : r.month_spent +ℤ r.remaining_this_month ≡ r.available_this_month
  -- Over budget is exactly to have spent more than it.
  pub over_iff : (r.is_over_budget ≡ true) ↔ (r.available_this_month <ℤ r.month_spent)

carryover_no_rollover :
    (count : ℕ) (allocated spent : ℤ) → carryover false count allocated spent ≡ pos 0
unfolding carryover
carryover_no_rollover count allocated spent = refl

available_lem :
    (rollover : Bool) (count : ℕ) (base allocated spent : ℤ)
    → (if rollover then base +ℤ carryover rollover count allocated spent else base)
      ≡ base +ℤ carryover rollover count allocated spent
available_lem true count base allocated spent = refl
available_lem false count base allocated spent =
    rw (carryover_no_rollover count allocated spent) (omega int_laws)

negative_sub_iff : (a b : ℤ) → (ltb_ℤ (a -ℤ b) (pos 0) ≡ true) ↔ (a <ℤ b)
negative_sub_iff a b = ground (arith, -ℤ_parts a b)

nonneg_cases : (c : ℤ) → pos 0 ≤ℤ c → (c ≡ pos 0) ⊎ (pos 0 <ℤ c)
nonneg_cases c h = ground arith

finish-IsBalanced :
    (budget : Budget) (p : MonthYearSelection) (spent ytd : ℤ) (count : ℕ) (before : ℤ)
    → IsBalanced p (finish budget p spent ytd count before)
unfolding finish
finish-IsBalanced budget p spent ytd count before =
    let rollover = get_or budget.rollover false in
    let allocated = scale count budget.amount in
    let (nonneg, above) = carryover_lem rollover count allocated before in
    record {
      period = refl;
      carry_nonneg = nonneg;
      carry_cases = elim (nonneg_cases _ nonneg) [
        | inl z ↦ inl z
        | inr h ↦ let (on, _, eq) = above h in inr (on, eq)
      ];
      available = available_lem rollover count _ allocated before;
      remaining = omega int_laws;
      over_iff = negative_sub_iff _ spent;
    }

-- In every result of a budget the carry-over is nothing or what the months before left over under a
-- rollover, the amount available is the amount of the view and the carry-over, what is spent and
-- what remains add up to it, and it is over budget exactly when more is spent than available.
pub compute_rollover_budget-IsBalanced :
    (local_month : Text → Option (ℕ × ℕ)) (budget : Budget) (ts : List Transaction)
    (p : MonthYearSelection) (sub : Option Text) (r : RolloverBudgetResult)
    → compute_rollover_budget local_month budget ts p sub ≡ some r
    → IsBalanced p r
compute_rollover_budget-IsBalanced local_month budget ts p sub r e =
    let (spent, ytd, before, _, _, _, er) = run_parts local_month budget ts p sub r e in
    rw (← er) (finish-IsBalanced budget p spent ytd _ before)

carryover_no_months :
    (rollover : Bool) (allocated spent : ℤ) → carryover rollover 0 allocated spent ≡ pos 0
unfolding carryover
carryover_no_months true allocated spent = refl
carryover_no_months false allocated spent = refl

full_base :
    (full : Bool) (period monthly carry : ℤ)
    → full ≡ true
    → carry ≡ pos 0
    → (if full then period else monthly) +ℤ carry ≡ period
full_base full period monthly carry e none_over = rw (e, none_over) (omega int_laws)

month_base :
    (full : Bool) (period monthly carry : ℤ)
    → full ≡ false
    → (if full then period else monthly) +ℤ carry ≡ monthly +ℤ carry
month_base full period monthly carry e = rw e

pub is_full_year_month :
    (p : MonthYearSelection) (m : ℕ) → p.month ≡ some m → is_full_year p.month ≡ false
unfolding is_full_year
is_full_year_month p m month = rw month

finish_monthly :
    (budget : Budget) (p : MonthYearSelection) (spent ytd : ℤ) (count : ℕ) (before : ℤ)
    → (finish budget p spent ytd count before).monthly_amount ≡ budget.amount
unfolding finish
finish_monthly budget p spent ytd count before = refl

finish_full_year :
    (budget : Budget) (p : MonthYearSelection) (spent ytd : ℤ)
    → p.month ≡ none
    → let r = finish budget p spent ytd 0 (pos 0) in
      (r.prior_carryover ≡ pos 0)
      × (r.prior_months_spent ≡ pos 0)
      × (r.available_this_month ≡ r.period_amount)
unfolding is_full_year
finish_full_year budget p spent ytd full =
    let b = finish-IsBalanced budget p spent ytd 0 (pos 0) in
    let none_over : (finish budget p spent ytd 0 (pos 0)).prior_carryover ≡ pos 0 =
      unfold finish in carryover_no_months (get_or budget.rollover false) _ (pos 0) in
    (
      none_over,
      unfold finish in refl,
      b.available ∙ full_base (is_full_year p.month) _ _ _ (rw full) none_over,
    )

-- The full-year view carries nothing over: its amount is the amount of the period alone, whatever
-- the rollover says and wherever it starts.
pub compute_rollover_budget_full_year :
    (local_month : Text → Option (ℕ × ℕ)) (budget : Budget) (ts : List Transaction)
    (p : MonthYearSelection) (sub : Option Text) (r : RolloverBudgetResult)
    → p.month ≡ none
    → compute_rollover_budget local_month budget ts p sub ≡ some r
    → (r.prior_carryover ≡ pos 0)
      × (r.prior_months_spent ≡ pos 0)
      × (r.available_this_month ≡ r.period_amount)
unfolding prior_window prior_months_count
compute_rollover_budget_full_year local_month budget ts p sub r full e =
    let (spent, ytd, before, _, _, eb, er) = run_parts local_month budget ts p sub r e in
    let start = rollover_start local_month budget p.year in
    let no_prior : prior_window p start ≡ no_window = rw (full, prior_window) in
    let nothing : before ≡ pos 0 =
      some-injective _ _
        (sym eb ∙ ap (prior_spent budget ts p sub) no_prior ∙ (unfold prior_spent in refl)) in
    rw (← er, no_prior, nothing) (finish_full_year budget p spent ytd full)

-- In the view of a month the amount available is the amount of the budget and the carry-over.
pub compute_rollover_budget_month :
    (local_month : Text → Option (ℕ × ℕ)) (budget : Budget) (ts : List Transaction)
    (p : MonthYearSelection) (sub : Option Text) (m : ℕ) (r : RolloverBudgetResult)
    → p.month ≡ some m
    → compute_rollover_budget local_month budget ts p sub ≡ some r
    → r.available_this_month ≡ budget.amount +ℤ r.prior_carryover
unfolding is_full_year
compute_rollover_budget_month local_month budget ts p sub m r month e =
    let (spent, ytd, before, _, _, _, er) = run_parts local_month budget ts p sub r e in
    let count = prior_months_count (prior_window p (rollover_start local_month budget p.year)) in
    let b = finish-IsBalanced budget p spent ytd count before in
    rw (← er) (
      b.available
      ∙ month_base (is_full_year p.month) _ _ _ (rw month)
      ∙ ap (λ a. a +ℤ (finish budget p spent ytd count before).prior_carryover)
          (finish_monthly budget p spent ytd count before))
