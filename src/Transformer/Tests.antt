-- ===== src/Transformer/Tests.antt =====
-- Runs of the transformer.
use sumurai.Prelude.{◌≡◌, refl, true, not, none, some, []}
use sumurai.Prelude.Int.{pos}
use sumurai.Prelude.Text.{lit, eq, trim, starts_with, to_lower_case}
use sumurai.Types.{plaid}
use sumurai.Categories.{is_spending_excluded_category}
use sumurai.Amounts.{detailed_of}
use sumurai.Budgets.{counts_towards}
use sumurai.Filters.{fits_category}
use sumurai.Transformer.{
  BackendTransaction, has_text, chosen_primary, chosen_detailed, normalized, shows_detailed,
  kept_detailed, nonempty, backend_to_frontend,
}
use sumurai.Transactions.Edits.{set_category, assign_created, set_rule}
use sumurai.Transactions.Edits.Reload.{with_override, with_rule, edits_reload}
use sumurai.Transformer.Categories.{own_category}

abbrev lunch : BackendTransaction
lunch = record {
  id = lit "t1";
  account_id = none;
  date = lit "2024-03-05";
  merchant_name = none;
  amount = some (pos 1500);
  pending = none;
  category_primary = some (lit "GENERAL_SERVICES");
  category_detailed = some (lit "OTHER");
  category_confidence = some [];
  account_name = lit "Everyday";
  account_type = lit "depository";
  account_mask = none;
  provider = some plaid;
  running_balance = none;
  location = none;
  custom_category = some (lit "Food & Dining");
  custom_subcategory = some (lit "Restaurants");
  rule_category = none;
  rule_subcategory = none;
}

lunch_run : detailed_of (backend_to_frontend lunch).category ≡ some (lit "Restaurants")
unfolding eq trim starts_with to_lower_case has_text chosen_primary chosen_detailed normalized
    shows_detailed kept_detailed nonempty backend_to_frontend
lunch_run = refl

own_category_example :
    (fits_category (lit "Food & Dining") (backend_to_frontend lunch) ≡ true)
    × (counts_towards (lit "Food & Dining") none (backend_to_frontend lunch)
        ≡ not (is_spending_excluded_category (some (lit "Food & Dining"))))
own_category_example = own_category lunch (lit "Food & Dining") refl

edits_reload_example :
    (set_category (lit "Travel") (some (lit "Hotels")) (backend_to_frontend lunch)
      ≡ backend_to_frontend (with_override (lit "Travel") (lit "Hotels") lunch))
    × (assign_created (lit "Travel") (lit "Hotels") (backend_to_frontend lunch)
        ≡ backend_to_frontend (with_override (lit "Travel") (lit "Hotels") lunch))
    × (set_rule (lit "Travel") (some (lit "Hotels")) (backend_to_frontend lunch)
        ≡ backend_to_frontend (with_rule (lit "Travel") (lit "Hotels") lunch))
unfolding eq trim starts_with to_lower_case normalized shows_detailed
edits_reload_example = edits_reload lunch (lit "Travel") (lit "Hotels") refl
