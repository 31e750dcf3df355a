-- ===== src/Budgets/Composite/Totals.antt =====
-- frontend/src/domain/BudgetCalculator.ts: how the totals of `computeCompositeMajorBudget` fit
-- together.
use mathlib.Core.Option
use mathlib.Core.Option.{some-injective}
use sumurai.Prelude.{
  ℕ, ◌≡◌, refl, sym, ◌∙◌, ap, inl, inr, Option, none, some, List, [], ◌∷◌, arith, ◌>>=◌,
  four_results, Option-cases,
}
use sumurai.Prelude.Int.{ℤ, pos, ◌+ℤ◌, int_laws, zero-+ℤ}
use sumurai.Prelude.Text.{Text}
use sumurai.Types.{Transaction, Budget}
use sumurai.DateRanges.{MonthYearSelection}
use sumurai.Budgets.{calculate_spent}
use sumurai.Budgets.Rollover.{
  RolloverBudgetResult, month_start, month_end, year_start, compute_rollover_budget,
}
use sumurai.Budgets.Rollover.Balance.{compute_rollover_budget_month, is_full_year_month}
use sumurai.Budgets.Composite.{
  SubcategoryBudget, SubcategoryResult, CompositeBudgetResult, sum_of, of_present, finish_composite,
  direct_budget, subcategory_budgets, compute_composite_major_budget,
}

sum_of_from {ℓ} :
    {A : Type ℓ} (f : A → ℤ) (sum : ℤ) (xs : List A) → sum_of f sum xs ≡ sum +ℤ sum_of f (pos 0) xs
unfolding sum_of
sum_of_from f sum [] = omega int_laws
sum_of_from f sum (x ∷ xs) =
    rw (sum_of_from f (sum +ℤ f x) xs, sum_of_from f (pos 0 +ℤ f x) xs) (omega int_laws)

sum_of-cons {ℓ} :
    {A : Type ℓ} (f : A → ℤ) (x : A) (xs : List A)
    → sum_of f (pos 0) (x ∷ xs) ≡ f x +ℤ sum_of f (pos 0) xs
unfolding sum_of
sum_of-cons f x xs =
    sum_of_from f (pos 0 +ℤ f x) xs ∙ ap (λ a. a +ℤ sum_of f (pos 0) xs) (zero-+ℤ (f x))

-- One round of the map over the subcategories.
cons_results :
    (name : Text) (r? : Option RolloverBudgetResult) (rest? : Option (List SubcategoryResult))
    (results : List SubcategoryResult)
    → (r? >>= λ r. rest? >>= λ rest. some (record { subcategory = name; result = r } ∷ rest))
      ≡ some results
    → (r : RolloverBudgetResult) × (rest : List SubcategoryResult) × (r? ≡ some r)
      × (rest? ≡ some rest)
      × (record { subcategory = name; result = r } ∷ rest ≡ results)
cons_results name (some r) (some rest) results e = (r, rest, refl, refl, some-injective _ _ e)
cons_results name (some r) none results e = cc
cons_results name none rest? results e = cc

module _ (local_month : Text → Option (ℕ × ℕ)) (ts : List Transaction) (p : MonthYearSelection)
    (m : ℕ) (month : p.month ≡ some m) where
  subcategory_budgets_month :
      (sbs : List SubcategoryBudget) (results : List SubcategoryResult)
      → subcategory_budgets local_month sbs ts p ≡ some results
      → sum_of (λ sr. sr.result.available_this_month) (pos 0) results
        ≡ sum_of (λ sb. sb.budget.amount) (pos 0) sbs
          +ℤ sum_of (λ sr. sr.result.prior_carryover) (pos 0) results
  unfolding subcategory_budgets
  subcategory_budgets_month [] results e =
      rw (← some-injective _ _ e) (unfold sum_of in sym (zero-+ℤ (pos 0)))
  subcategory_budgets_month (sb ∷ sbs) results e =
      let (r, rest, er, erest, same) =
        cons_results sb.subcategory
          (compute_rollover_budget local_month sb.budget ts p (some sb.subcategory))
          (subcategory_budgets local_month sbs ts p) results e in
      let first = compute_rollover_budget_month local_month sb.budget ts p _ m r month er in
      let later = subcategory_budgets_month sbs rest erest in
      rw (← same) (
        rw
          (
            sum_of-cons (λ (sr : SubcategoryResult). sr.result.available_this_month) _ rest,
            sum_of-cons (λ (b : SubcategoryBudget). b.budget.amount) sb sbs,
            sum_of-cons (λ (sr : SubcategoryResult). sr.result.prior_carryover) _ rest,
            first,
            later,
          )
          (omega int_laws))

  direct_budget_month :
      (direct : Option Budget) (result : Option RolloverBudgetResult)
      → direct_budget local_month direct ts p ≡ some result
      → of_present (λ r. r.available_this_month) result (of_present (λ b. b.amount) direct (pos 0))
        ≡ of_present (λ b. b.amount) direct (pos 0)
          +ℤ of_present (λ r. r.prior_carryover) result (pos 0)
  unfolding direct_budget of_present
  direct_budget_month none result e = rw (← some-injective _ _ e) (sym (zero-+ℤ (pos 0)))
  direct_budget_month (some b) result e =
      elim (Option-cases (compute_rollover_budget local_month b ts p none)) [
        | inl missing ↦ absurd (ground arith)
        | inr (r, er) ↦
            let same : some r ≡ result = some-injective _ _ (ap (Option.map some) (sym er) ∙ e) in
            rw (← same) (compute_rollover_budget_month local_month b ts p none m r month er)
      ]

-- The parts of a run that returns a result.
composite_parts :
    (local_month : Text → Option (ℕ × ℕ)) (major : Text) (direct : Option Budget)
    (subs : List SubcategoryBudget) (ts : List Transaction) (p : MonthYearSelection)
    (r : CompositeBudgetResult)
    → compute_composite_major_budget local_month major direct subs ts p ≡ some r
    → (direct_result : Option RolloverBudgetResult) × (results : List SubcategoryResult)
      × (spent : ℤ) × (ytd : ℤ) × (direct_budget local_month direct ts p ≡ some direct_result)
      × (subcategory_budgets local_month subs ts p ≡ some results)
      × (calculate_spent ts major (month_start p) (month_end p) none ≡ some spent)
      × (calculate_spent ts major (year_start p) (month_end p) none ≡ some ytd)
      × (finish_composite direct subs p direct_result results spent ytd ≡ r)
unfolding compute_composite_major_budget
composite_parts local_month major direct subs ts p r e =
    four_results (direct_budget local_month direct ts p) (subcategory_budgets local_month subs ts p)
      (calculate_spent ts major (month_start p) (month_end p) none)
      (calculate_spent ts major (year_start p) (month_end p) none) (finish_composite direct subs p)
      e

-- In the view of a month the amount available to a major category is the sum of the amounts of its
-- budgets and of what they carry over, and what is spent and what remains add up to it.
pub compute_composite_major_budget_month :
    (local_month : Text → Option (ℕ × ℕ)) (major : Text) (direct : Option Budget)
    (subs : List SubcategoryBudget) (ts : List Transaction) (p : MonthYearSelection) (m : ℕ)
    (r : CompositeBudgetResult)
    → p.month ≡ some m
    → compute_composite_major_budget local_month major direct subs ts p ≡ some r
    → (r.available_this_month ≡ r.monthly_amount +ℤ r.total_prior_carryover)
      × (r.month_spent +ℤ r.remaining_this_month ≡ r.available_this_month)
unfolding finish_composite
compute_composite_major_budget_month local_month major direct subs ts p m r month e =
    let (d, results, spent, ytd, ed, es, _, _, er) =
      composite_parts local_month major direct subs ts p r e in
    let left = direct_budget_month local_month ts p m month direct d ed in
    let right = subcategory_budgets_month local_month ts p m month subs results es in
    rw (← er)
      (rw (is_full_year_month p m month) (rw (left, right) (omega int_laws)), omega int_laws)
