-- ===== src/Filters/Tests.antt =====
-- Runs of the filters.
use mathlib.Core.List.{Perm}
use sumurai.Prelude.{◌≡◌, refl, none, some, [], ◌∷◌, filter}
use sumurai.Prelude.Text.{Text, lit}
use sumurai.Samples.{march, refund, transactions}
use sumurai.Budgets.Evaluation.{spending}
use sumurai.Filters.{
  FilterCriteria, filter_transactions, matches_pending, matches_search, filter_by_search,
  fits_category, filter_by_category, fits_subcategory, filter_by_subcategory, starts_as_date,
  to_date_only_key, in_period, filter_by_date_range, not_before, insert_by_date, sort_by_date,
  step_text, step_period,
}
use sumurai.Filters.Order.{meets, IsNewestFirst, filter_transactions_lem}

abbrev no_day : Text → Text
no_day t = []

abbrev groceries_of_march : FilterCriteria
groceries_of_march = record {
  search = none;
  category = some (lit "groceries");
  subcategory = none;
  date_range = some (record { start = lit "2024-03-01"; end = lit "2024-03-31" });
}

march_run : filter_transactions no_day transactions groceries_of_march ≡ refund ∷ march ∷ []
unfolding spending filter_transactions matches_pending matches_search filter_by_search fits_category
    filter_by_category fits_subcategory filter_by_subcategory starts_as_date to_date_only_key
    in_period filter_by_date_range not_before insert_by_date sort_by_date step_text step_period
march_run = refl

filter_transactions_lem_example :
    Perm
      (filter_transactions no_day transactions groceries_of_march)
      (filter (meets no_day groceries_of_march) transactions)
    × IsNewestFirst no_day (filter_transactions no_day transactions groceries_of_march)
filter_transactions_lem_example = filter_transactions_lem no_day transactions groceries_of_march
