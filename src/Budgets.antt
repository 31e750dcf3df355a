-- ===== src/Budgets.antt =====
-- frontend/src/domain/BudgetCalculator.ts. A computation that throws is `none`: `calculateSpent`
-- throws when a transaction of the category has an invalid date.
pub mod Evaluation
mod Tests
pub mod Spent
pub mod Own
pub mod Rollover
pub mod Composite
pub mod Stats
use sumurai.Prelude.{
  ℕ, zero, suc, ◌+◌, ◌*◌, ◌≤◌, Bool, true, false, not, ◌&&◌, ◌||◌, Option, none, some, List, [],
  ◌∷◌, if◌then◌else◌, filter, get_or, ◌>>=◌,
}
use sumurai.Prelude.Int.{ℤ, pos, ◌+ℤ◌}
use sumurai.Prelude.Text.{Text, eq, to_lower_case, is_empty, or_text, le_text}
use sumurai.Types.{Transaction}
use sumurai.Categories.{format_category_name, is_spending_excluded_category, resolve_major_category}
use sumurai.Amounts.{primary_of, detailed_of, get_net_spending_amount}
use sumurai.Dates.{iso, parse_date}
use mathlib.Core.Option

-- `a.toLowerCase() === b.toLowerCase()`
pub same_name : Text → Text → Bool
same_name a b = eq (to_lower_case a) (to_lower_case b)

-- `t.category?.primary || ''`
unfoldable pub primary_text : Transaction → Text
primary_text t = get_or (primary_of t.category) []

-- `t.category?.detailed || t.custom_subcategory || t.rule_subcategory || ''`
pub detailed_text : Transaction → Text
detailed_text t =
    or_text (detailed_of t.category) (or_text t.custom_subcategory (or_text t.rule_subcategory []))

-- The three ways in which the primary category fits the category of the budget.
primary_matches : Text → Text → Bool
primary_matches primary category = same_name primary category

friendly_matches : Text → Text → Bool
friendly_matches a category =
    same_name (format_category_name (some a)) (format_category_name (some category))

major_matches : Text → Text → Bool
major_matches primary category =
    same_name (resolve_major_category [] (some primary)) (resolve_major_category [] (some category))

-- with a subcategory, `subcategoryId` in lower case
matches_subcategory : Transaction → Text → Text → Bool
matches_subcategory t category target_sub =
    let primary = primary_text t in
    (primary_matches primary category
      || friendly_matches primary category
      || major_matches primary category)
    && eq (to_lower_case (detailed_text t)) target_sub

-- without one
matches_category : Transaction → Text → Bool
matches_category t category =
    let primary = primary_text t in
    let detailed = to_lower_case (detailed_text t) in
    if not (is_empty detailed)
      && (eq detailed (to_lower_case category) || friendly_matches detailed category)
    then true
    else primary_matches primary category
      || friendly_matches primary category
      || (same_name (resolve_major_category [] (some category)) category
          && major_matches primary category)

-- The first filter of `calculateSpent`. An empty subcategory is none.
pub counts_towards : Text → Option Text → Transaction → Bool
counts_towards category sub t =
    let target_sub = to_lower_case (or_text sub []) in
    if is_spending_excluded_category (some (primary_text t))
    then false
    else if not (is_empty target_sub)
    then matches_subcategory t category target_sub
    else matches_category t category

-- `new Date(t.date).toISOString().slice(0, 10)`
unfoldable pub iso_day : Transaction → Option Text
iso_day t = Option.map iso (parse_date t.date)

unfoldable pub in_range : Text → Text → Transaction → Option Bool
in_range start end t = Option.map (λ day. le_text start day && le_text day end) (iso_day t)

-- the second filter
pub filter_range : Text → Text → List Transaction → Option (List Transaction)
filter_range start end [] = some []
filter_range start end (t ∷ ts) = do
  keep ← in_range start end t
  kept ← filter_range start end ts
  some (if keep then t ∷ kept else kept)

pub sum_spending : ℤ → List Transaction → ℤ
sum_spending sum [] = sum
sum_spending sum (t ∷ ts) = sum_spending (sum +ℤ get_net_spending_amount t) ts

pub calculate_spent : List Transaction → Text → Text → Text → Option Text → Option ℤ
calculate_spent transactions category start end sub =
    Option.map (sum_spending (pos 0))
      (filter_range start end (filter (counts_towards category sub) transactions))
