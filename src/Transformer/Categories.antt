-- ===== src/Transformer/Categories.antt =====
-- frontend/src/domain/TransactionTransformer.ts, with TransactionFilter.ts and BudgetCalculator.ts:
-- the category of a transaction on its way from the backend to a budget.
use sumurai.Prelude.{
  ◌≡◌, Bool, true, not, ◌||◌, Option, none, some, if◌then◌else◌, or_else, arith, inl, inr,
  Bool-cases, ap, sym, ◌∙◌, subst, get_or,
}
use sumurai.Prelude.Text.{Text, lit}
use sumurai.Categories.{is_spending_excluded_category}
use sumurai.Amounts.{detailed_of}
use sumurai.Budgets.{primary_text, counts_towards}
use sumurai.Budgets.Own.{counts_towards_own}
use sumurai.Filters.Order.{fits_category_own}
use sumurai.Filters.{fits_category}
use sumurai.Transformer.{
  BackendTransaction, has_text, chosen_primary, chosen_detailed, shows_detailed, kept_detailed,
  backend_to_frontend,
}

primary_text-backend_to_frontend :
    (bt : BackendTransaction) (c : Text)
    → or_else bt.custom_category (or_else bt.rule_category bt.category_primary) ≡ some c
    → primary_text (backend_to_frontend bt) ≡ c
unfolding primary_text backend_to_frontend chosen_primary
primary_text-backend_to_frontend bt c h = ap (λ o. get_or o (lit "OTHER")) h

-- A transaction whose category is `c` by the user, else by a rule, else by the provider, passes the
-- filter for `c`, and counts towards a budget for `c` exactly when spending does not leave `c` out.
pub own_category :
    (bt : BackendTransaction) (c : Text)
    → or_else bt.custom_category (or_else bt.rule_category bt.category_primary) ≡ some c
    → let t = backend_to_frontend bt in
      (fits_category c t ≡ true)
      × (counts_towards c none t ≡ not (is_spending_excluded_category (some c)))
own_category bt c h =
    let t = backend_to_frontend bt in
    subst
      (λ d.
        (fits_category d t ≡ true)
        × (counts_towards d none t ≡ not (is_spending_excluded_category (some d))))
      (primary_text-backend_to_frontend bt c h) (fits_category_own t, counts_towards_own t)

kept_detailed-some :
    (primary : Text) (o : Option Text) (d : Text)
    → kept_detailed primary o ≡ some d
    → (shows_detailed primary d ≡ true) × (o ≡ some d)
unfolding kept_detailed
kept_detailed-some primary none d h = cc
kept_detailed-some primary (some e) d h = elim (Bool-cases (shows_detailed primary e)) [
  | inl p ↦ let q : e ≡ d = ground arith in (ap (shows_detailed primary) (sym q) ∙ p, ap some q)
  | inr p ↦ absurd (ground arith)
]

-- the choice as one chain
own_or_provider :
    (b : Bool) (own rule provider : Option Text)
    → (if b then or_else own rule else or_else (or_else own rule) provider)
      ≡ or_else own (or_else rule (if b then none else provider))
own_or_provider b own rule provider = ground arith

-- The subcategory that is shown is a text of the user, of a rule or, without a category of either, of
-- the provider, in this order, and is never one that only repeats the category.
pub shown_subcategory :
    (bt : BackendTransaction) (d : Text)
    → detailed_of (backend_to_frontend bt).category ≡ some d
    → (shows_detailed (chosen_primary bt) d ≡ true)
      × (or_else bt.custom_subcategory (
            or_else bt.rule_subcategory (
              if has_text bt.custom_category || has_text bt.rule_category
              then none
              else bt.category_detailed))
          ≡ some d)
unfolding backend_to_frontend kept_detailed chosen_detailed
shown_subcategory bt d h =
    let (p, q) = kept_detailed-some (chosen_primary bt) _ d h in
    (p, sym (own_or_provider _ bt.custom_subcategory bt.rule_subcategory bt.category_detailed) ∙ q)
