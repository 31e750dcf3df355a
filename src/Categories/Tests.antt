-- ===== src/Categories/Tests.antt =====
-- Runs of the category functions.
use sumurai.Prelude.{◌≡◌, refl, true, false, some, none, []}
use sumurai.Prelude.Text.{lit}
use sumurai.Categories.{UserCategory, resolve_major_category, is_spending_excluded_category}
use sumurai.Categories.Evaluation.{categories}

resolves :
    (resolve_major_category [] (some (lit "FOOD_AND_DRINK")) ≡ lit "Food & Dining")
    × (resolve_major_category [] (some (lit " coffee shops ")) ≡ lit "Food & Dining")
    × (resolve_major_category [] (some (lit "Other Travel")) ≡ lit "Travel")
    × (resolve_major_category [] (some (lit "my_hobby club")) ≡ lit "My Hobby Club")
    × (resolve_major_category [] none ≡ lit "Shopping")
unfolding categories
resolves = (refl, refl, refl, refl, refl)

excludes :
    (is_spending_excluded_category (some (lit "TRANSFER_OUT")) ≡ true)
    × (is_spending_excluded_category (some (lit "Paycheck")) ≡ true)
    × (is_spending_excluded_category (some (lit "Groceries")) ≡ false)
unfolding categories
excludes = (refl, refl, refl)

abbrev garden : UserCategory
garden = record { name = lit "Tools"; parent_category = some (lit "Garden") }
