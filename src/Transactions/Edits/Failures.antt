-- ===== src/Transactions/Edits/Failures.antt =====
-- frontend/src/features/transactions/hooks/useTransactions.ts: what is left of an edit that fails.
use sumurai.Prelude.{
  ◌≡◌, refl, ◌⊎◌, inl, inr, subst, true, false, Option, none, some, List, [], ◌∷◌, All,
  if◌then◌else◌, arith,
}
use sumurai.Prelude.Text.{Text, eq}
use sumurai.Types.{Transaction, TransactionCategory}
use sumurai.Http.{Thrown, throw}
use sumurai.Budgets.{primary_text}
use sumurai.Filters.{fits_category}
use sumurai.Filters.Order.{fits_category_own}
use sumurai.Transactions.Edits.{
  ListState, recategorized, set_rule, takes_rule, apply_rule, create_category_rule,
}

recategorized_primary :
    (name : Text) (sub : Option Text) (o : Option TransactionCategory)
    → (recategorized name sub o).primary ≡ name
unfolding recategorized
recategorized_primary name sub none = refl
recategorized_primary name sub (some c) = refl

primary_text-set_rule :
    (name : Text) (sub : Option Text) (t : Transaction) → primary_text (set_rule name sub t) ≡ name
unfolding primary_text set_rule
primary_text-set_rule name sub t = recategorized_primary name sub t.category

fits_category-set_rule :
    (name : Text) (sub : Option Text) (t : Transaction)
    → fits_category name (set_rule name sub t) ≡ true
fits_category-set_rule name sub t =
    subst (λ c. fits_category c (set_rule name sub t) ≡ true) (primary_text-set_rule name sub t)
      (fits_category_own (set_rule name sub t))

abbrev pub Target : Text → Text → Transaction → Type 0
Target i name t = (eq t.id i ≡ false) ⊎ (fits_category name t ≡ true)

takes_rule-target :
    (i pattern : Text) (t : Transaction) → takes_rule i pattern t ≡ false → eq t.id i ≡ false
unfolding takes_rule
takes_rule-target i pattern t h = ground arith

apply_rule-All :
    (i pattern name : Text) (sub : Option Text) (ts : List Transaction)
    → All (Target i name) (apply_rule i pattern name sub ts)
unfolding apply_rule
apply_rule-All i pattern name sub [] = tt
apply_rule-All i pattern name sub (t ∷ ts) = (
  elim (takes_rule i pattern t)
        as (λ b.
          takes_rule i pattern t ≡ b → Target i name (if b then set_rule name sub t else t)) [
            | true ↦ λ p. inr (fits_category-set_rule name sub t)
            | false ↦ λ p. inl (takes_rule-target i pattern t p)
          ]
      refl,
  apply_rule-All i pattern name sub ts,
)

-- When the server refuses a rule, the error is passed on, and the transaction that the rule was made
-- from stays in the category of the rule all the same.
pub failed_rule :
    (reload : ListState → ListState) (i pattern name : Text) (sub : Option Text) (e : Thrown)
    (s : ListState)
    → let result = create_category_rule reload i pattern name sub (throw e) s in
      (result.1 ≡ throw e) × All (Target i name) result.0.all
unfolding create_category_rule
failed_rule reload i pattern name sub e s = (refl, apply_rule-All i pattern name sub s.all)
