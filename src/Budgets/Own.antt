-- ===== src/Budgets/Own.antt =====
-- frontend/src/domain/BudgetCalculator.ts: a transaction and the budget of its own category.
use sumurai.Prelude.{◌≡◌, true, not, none, some, arith}
use sumurai.Prelude.Text.{Text, to_lower_case}
use sumurai.Prelude.Sets.{eq_refl}
use sumurai.Types.{Transaction}
use sumurai.Categories.{is_spending_excluded_category}
use sumurai.Budgets.{same_name, primary_text, primary_matches, matches_category, counts_towards}

pub same_name_refl : (c : Text) → same_name c c ≡ true
unfolding same_name
same_name_refl c = eq_refl (to_lower_case c)

primary_matches_own : (c : Text) → primary_matches c c ≡ true
unfolding primary_matches
primary_matches_own c = same_name_refl c

matches_category_own : (t : Transaction) → matches_category t (primary_text t) ≡ true
unfolding matches_category
matches_category_own t = ground (arith, primary_matches_own (primary_text t))

-- A transaction counts towards a budget of its own category exactly when spending does not leave the
-- category out.
pub counts_towards_own :
    (t : Transaction)
    → counts_towards (primary_text t) none t
      ≡ not (is_spending_excluded_category (some (primary_text t)))
unfolding counts_towards to_lower_case
counts_towards_own t = ground (arith, matches_category_own t)
