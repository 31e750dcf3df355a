-- ===== src/Budgets/Rollover/Carry.antt =====
-- frontend/src/domain/BudgetCalculator.ts: what `computeRolloverBudget` carries over.
use mathlib.Core.Path.{ap₂}
use mathlib.Core.Option.{some-injective}
use sumurai.Prelude.{
  ℕ, zero, suc, ◌+◌, ◌≤◌, ◌<◌, ◌≡◌, sym, ◌∙◌, ap, ◌⊎◌, inl, inr, Bool, true, Option, some, List,
  arith, if◌then◌else◌, three_results, ltb, lt→ltb, Option-cases,
}
use sumurai.Prelude.Int.{ℤ, pos, ◌+ℤ◌, ◌≤ℤ◌, ◌<ℤ◌, eq-add_clip_sub}
use sumurai.Prelude.Text.{Text}
use sumurai.Types.{Transaction, Budget}
use sumurai.DateRanges.{MonthYearSelection}
use sumurai.Budgets.{calculate_spent}
use sumurai.Budgets.Spent.{◌+?◌, +?-some, zero_share}
use sumurai.Budgets.Spent.Ranges.{months_split, calculate_spent_parts}
use sumurai.Budgets.Rollover.{
  RolloverBudgetResult, RolloverStart, no_window, window, month_start, month_end, year_start,
  default_start, prior_from, prior_year, prior_window, prior_months_count, carryover, finish,
  prior_end, prior_spent, rollover_start, compute_rollover_budget,
}

prior_year_months :
    (year m n s : ℕ) (start_year start_month1 : Option ℕ)
    → prior_year year start_year start_month1 m ≡ window n s
    → (s + n ≡ m + 1) × (0 < n)
unfolding prior_year prior_from
prior_year_months year m n s start_year start_month1 e = ground arith

-- A month that counts towards the carry-over stands before the selected month, every month from the
-- start of the window up to there counts once, and the full-year view counts none.
pub prior_window_months :
    (p : MonthYearSelection) (start : RolloverStart) (n s : ℕ)
    → prior_window p start ≡ window n s
    → (m : ℕ) × (p.month ≡ some m) × (s + n ≡ m + 1) × (0 < n)
unfolding prior_window
prior_window_months p start n s e = elim (Option-cases p.month) [
  | inl full ↦ absurd (ground arith)
  | inr (m, month) ↦
      let (total, some_month) =
        prior_year_months p.year m n s start.start_year start.start_month1 (ground arith) in
      (m, month, total, some_month)
]

pub carryover_lem :
    (rollover : Bool) (count : ℕ) (allocated spent : ℤ)
    → let carry = carryover rollover count allocated spent in
      (pos 0 ≤ℤ carry)
      × (pos 0 <ℤ carry → (rollover ≡ true) × (0 < count) × (allocated ≡ spent +ℤ carry))
unfolding carryover
carryover_lem rollover count allocated spent = ground (arith, eq-add_clip_sub allocated spent)

-- The sums of a run that returns a result, and the result.
pub run_parts :
    (local_month : Text → Option (ℕ × ℕ)) (budget : Budget) (ts : List Transaction)
    (p : MonthYearSelection) (sub : Option Text) (r : RolloverBudgetResult)
    → compute_rollover_budget local_month budget ts p sub ≡ some r
    → let prior = prior_window p (rollover_start local_month budget p.year) in
      (spent : ℤ) × (ytd : ℤ) × (before : ℤ) × (calculate_spent ts budget.category
          (month_start p)
          (month_end p)
          sub
        ≡ some spent)
      × (calculate_spent ts budget.category (year_start p) (month_end p) sub ≡ some ytd)
      × (prior_spent budget ts p sub prior ≡ some before)
      × (finish budget p spent ytd (prior_months_count prior) before ≡ r)
unfolding compute_rollover_budget
run_parts local_month budget ts p sub r e =
    let prior = prior_window p (rollover_start local_month budget p.year) in
    three_results (calculate_spent ts budget.category (month_start p) (month_end p) sub)
      (calculate_spent ts budget.category (year_start p) (month_end p) sub)
      (prior_spent budget ts p sub prior)
      (λ spent ytd before. finish budget p spent ytd (prior_months_count prior) before) e

-- A rollover that counts every month of the selected year before the selected month: it started in
-- an earlier year, or in January of this year.
abbrev pub CountsWholeYear : ℕ → RolloverStart → Type 0
CountsWholeYear year s = ((y : ℕ) × (s.start_year ≡ some y) × (y < year)) ⊎ (s ≡ default_start year)

whole_year_window :
    (p : MonthYearSelection) (s : RolloverStart) (m : ℕ)
    → p.month ≡ some m
    → CountsWholeYear p.year s
    → prior_window p s ≡ (if ltb 0 m then window m 1 else no_window)
unfolding prior_window prior_year prior_from default_start
whole_year_window p s m month c = ground arith

-- The amounts of the months before, and of the month itself, add up to that of the year to date.
ytd_parts :
    (budget : Budget) (ts : List Transaction) (p : MonthYearSelection) (sub : Option Text) (m : ℕ)
    → p.month ≡ some m
    → m < 12
    → 1000 ≤ p.year
    → p.year < 10_000
    → calculate_spent ts budget.category (year_start p) (month_end p) sub
      ≡ prior_spent budget ts p sub (if ltb 0 m then window m 1 else no_window)
        +? calculate_spent ts budget.category (month_start p) (month_end p) sub
unfolding prior_spent year_start month_end month_start prior_end
ytd_parts budget ts p sub zero month h y1 y2 = rw month (zero_share _)
ytd_parts budget ts p sub (suc k) month h y1 y2 =
    let before : ltb 0 (suc k) ≡ true = lt→ltb 0 (suc k) (omega arith) in
    rw (month, before)
      (calculate_spent_parts
        (months_split p.year 1 (suc k) (suc k + 1) y1 y2 (omega arith) (omega arith) (omega arith))
        budget.category sub ts)

-- Where a rollover counts the whole year up to the selected month, the amount spent in the year to
-- date is the amount spent in the months before and the amount spent in the selected month.
pub compute_rollover_budget_ytd :
    (local_month : Text → Option (ℕ × ℕ)) (budget : Budget) (ts : List Transaction)
    (p : MonthYearSelection) (sub : Option Text) (m : ℕ) (r : RolloverBudgetResult)
    → p.month ≡ some m
    → m < 12
    → 1000 ≤ p.year
    → p.year < 10_000
    → CountsWholeYear p.year (rollover_start local_month budget p.year)
    → compute_rollover_budget local_month budget ts p sub ≡ some r
    → r.ytd_spent ≡ r.prior_months_spent +ℤ r.month_spent
unfolding finish
compute_rollover_budget_ytd local_month budget ts p sub m r month h y1 y2 c e =
    let (spent, ytd, before, es, ey, eb, er) = run_parts local_month budget ts p sub r e in
    let window_eq = whole_year_window p (rollover_start local_month budget p.year) m month c in
    let total : some ytd ≡ some before +? some spent =
      sym ey
      ∙ ytd_parts budget ts p sub m month h y1 y2
      ∙ ap₂ ◌+?◌ (ap (prior_spent budget ts p sub) (sym window_eq) ∙ eb) es in
    rw (← er) (some-injective _ _ (total ∙ +?-some before spent))
