-- ===== src/Budgets/Stats/Summary.antt =====
-- frontend/src/domain/BudgetCalculator.ts: what the totals and lists of `computeStats` add up to.
use mathlib.Core.List.{append_assoc, append-nil}
use sumurai.Prelude.{
  ℕ, ◌+◌, ◌≤◌, ◌<◌, ◌⊎◌, ◌≡◌, refl, Bool, List, [], ◌∷◌, ◌++◌, map, length, length-take, length-map,
  take, filter, arith, sym, ap, ◌∙◌,
}
use sumurai.Prelude.Int.{ℤ, pos, ◌+ℤ◌, ◌-ℤ◌, int_laws, +ℤ_assoc, zero-+ℤ}
use sumurai.Dates.{Date}
use sumurai.Budgets.Stats.{
  ComputedBudget, Totals, no_totals, add_budget, total_from, is_near_limit, is_over_budget,
  calculate_remaining, days_left, stats_of, compute_stats,
}

abbrev pub sum_by : (ComputedBudget → ℤ) → List ComputedBudget → ℤ
sum_by f [] = pos 0
sum_by f (b ∷ bs) = f b +ℤ sum_by f bs

abbrev pub over : ComputedBudget → Bool
over b = is_over_budget b.amount b.spent

budgeted-total_from :
    (acc : Totals) (bs : List ComputedBudget)
    → (total_from acc bs).budgeted ≡ acc.budgeted +ℤ sum_by (λ b. b.amount) bs
unfolding total_from add_budget
budgeted-total_from acc [] = omega int_laws
budgeted-total_from acc (b ∷ bs) =
    budgeted-total_from (add_budget acc b) bs ∙ +ℤ_assoc acc.budgeted b.amount _

spent-total_from :
    (acc : Totals) (bs : List ComputedBudget)
    → (total_from acc bs).spent ≡ acc.spent +ℤ sum_by (λ b. b.spent) bs
unfolding total_from add_budget
spent-total_from acc [] = omega int_laws
spent-total_from acc (b ∷ bs) =
    spent-total_from (add_budget acc b) bs ∙ +ℤ_assoc acc.spent b.spent _

over_categories-total_from :
    (acc : Totals) (bs : List ComputedBudget)
    → (total_from acc bs).over_categories
      ≡ acc.over_categories ++ map (λ b. b.category) (filter over bs)
unfolding total_from add_budget is_over_budget
over_categories-total_from acc [] = sym (append-nil acc.over_categories)
over_categories-total_from acc (b ∷ bs) =
    over_categories-total_from (add_budget acc b) bs
    ∙ ground (
      arith,
      append_assoc acc.over_categories (b.category ∷ []) (map (λ c. c.category) (filter over bs)),
    )

over_count-total_from :
    (acc : Totals) (bs : List ComputedBudget)
    → (total_from acc bs).over_count ≡ acc.over_count + length (filter over bs)
unfolding total_from add_budget is_over_budget
over_count-total_from acc [] = omega arith
over_count-total_from acc (b ∷ bs) = ground (arith, over_count-total_from (add_budget acc b) bs)

near_limit-within :
    (bs : List ComputedBudget)
    → length (filter is_near_limit bs) + length (filter over bs) ≤ length bs
unfolding is_near_limit is_over_budget
near_limit-within [] = omega arith
near_limit-within (b ∷ bs) = ground (arith, near_limit-within bs)

-- The totals of the statistics are the sums over the budgets, the remaining amount is the clipped
-- variance, and the budgets that are over their amount are listed in order and counted.
pub compute_stats_totals :
    (bs : List ComputedBudget) (year month0 : ℕ) (now : Date)
    → let s = compute_stats bs year month0 now in
      (s.total_budgeted ≡ sum_by (λ b. b.amount) bs)
      × (s.total_spent ≡ sum_by (λ b. b.spent) bs)
      × (s.variance ≡ s.total_budgeted -ℤ s.total_spent)
      × (s.remaining ≡ calculate_remaining s.total_budgeted s.total_spent)
      × (s.over_budget_categories ≡ map (λ b. b.category) (filter over bs))
      × (s.over_budget_count ≡ length s.over_budget_categories)
unfolding compute_stats stats_of calculate_remaining ◌-ℤ◌
compute_stats_totals [] year month0 now = (refl, refl, refl, refl, refl, refl)
compute_stats_totals (b ∷ bs) year month0 now = (
  budgeted-total_from no_totals (b ∷ bs) ∙ zero-+ℤ _,
  spent-total_from no_totals (b ∷ bs) ∙ zero-+ℤ _,
  refl,
  refl,
  over_categories-total_from no_totals (b ∷ bs),
  omega (
    arith,
    over_count-total_from no_totals (b ∷ bs),
    ap length (over_categories-total_from no_totals (b ∷ bs)),
    length-map (λ c. c.category) (filter over (b ∷ bs)),
  ),
)

-- At most three categories are listed as near their limit, and no budget counts both as near its
-- limit and as over it: together they are at most as many as the budgets.
pub compute_stats_near_limit :
    (bs : List ComputedBudget) (year month0 : ℕ) (now : Date)
    → let s = compute_stats bs year month0 now in
      (length s.near_limit_categories ≤ 3)
      × (length s.near_limit_categories + s.over_budget_count ≤ length s.active_budget_categories)
unfolding compute_stats stats_of
compute_stats_near_limit [] year month0 now = ground arith
compute_stats_near_limit (b ∷ bs) year month0 now =
    let all = b ∷ bs in
    ground (
      arith,
      length-map (λ c. c.category) (take 3 (filter is_near_limit all)),
      length-map (λ c. c.category) all,
      length-take 3 (filter is_near_limit all),
      near_limit-within all,
      over_count-total_from no_totals all,
    )

-- `d` is not later than `e`.
abbrev pub NotAfter : Date → Date → Type 0
NotAfter d e =
    (d.year < e.year)
    ⊎ ((d.year ≡ e.year) × ((d.month < e.month) ⊎ ((d.month ≡ e.month) × (d.day ≤ e.day))))

-- The days remaining are at most the days of the month, and never grow from one day to a later one.
pub days_remaining_mono :
    (bs : List ComputedBudget) (year month0 : ℕ) (now later : Date)
    → NotAfter now later
    → ((compute_stats bs year month0 later).days_remaining
        ≤ (compute_stats bs year month0 now).days_remaining)
      × ((compute_stats bs year month0 now).days_remaining
          ≤ (compute_stats bs year month0 now).total_days)
unfolding compute_stats stats_of days_left
days_remaining_mono [] year month0 now later h = ground arith
days_remaining_mono (b ∷ bs) year month0 now later h = ground arith
