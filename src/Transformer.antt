-- ===== src/Transformer.antt =====
-- frontend/src/domain/TransactionTransformer.ts: a transaction of the backend becomes one of the
-- frontend.
mod Tests
pub mod Categories
use sumurai.Prelude.{
  Bool, true, false, not, ◌&&◌, ◌||◌, Option, none, some, List, [], if◌then◌else◌, get_or, or_else,
}
use sumurai.Prelude.Int.{ℤ}
use sumurai.Prelude.Text.{Text, lit, eq, is_empty, or_text, to_lower_case, trim, starts_with}
use sumurai.Types.{FinancialProvider, TransactionLocation, TransactionCategory, Transaction}

pub record BackendTransaction : Type 0 where
  pub id : Text
  pub account_id : Option Text
  pub date : Text
  pub merchant_name : Option Text
  pub amount : Option ℤ
  pub pending : Option Bool
  pub category_primary : Option Text
  pub category_detailed : Option Text
  pub category_confidence : Option Text
  pub account_name : Text
  pub account_type : Text
  pub account_mask : Option Text
  pub provider : Option FinancialProvider
  pub running_balance : Option ℤ
  pub location : Option TransactionLocation
  pub custom_category : Option Text
  pub custom_subcategory : Option Text
  pub rule_category : Option Text
  pub rule_subcategory : Option Text

-- `Boolean(text)`
unfoldable pub has_text : Option Text → Bool
has_text o = not (is_empty (get_or o []))

-- the override, the rule, the provider, or `OTHER`
unfoldable pub chosen_primary : BackendTransaction → Text
chosen_primary bt =
    get_or (or_else bt.custom_category (or_else bt.rule_category bt.category_primary)) (lit "OTHER")

unfoldable pub chosen_detailed : BackendTransaction → Option Text
chosen_detailed bt =
    let own = or_else bt.custom_subcategory bt.rule_subcategory in
    if has_text bt.custom_category || has_text bt.rule_category
    then own
    else or_else own bt.category_detailed

-- `text.trim().toLowerCase()`
pub normalized : Text → Text
normalized s = to_lower_case (trim s)

unfoldable pub shows_detailed : Text → Text → Bool
shows_detailed primary detailed =
    not (is_empty detailed)
    && not (eq (normalized detailed) (lit "other"))
    && not (starts_with (normalized detailed) (lit "other "))
    && (eq (normalized primary) (lit "groceries")
        || not (eq (normalized detailed) (normalized primary)))

unfoldable pub kept_detailed : Text → Option Text → Option Text
kept_detailed primary none = none
kept_detailed primary (some d) = if shows_detailed primary d then some d else none

-- an optional text that is left out when it is empty
unfoldable pub nonempty : Option Text → Option Text
nonempty o = if has_text o then o else none

unfoldable pub backend_to_frontend : BackendTransaction → Transaction
backend_to_frontend bt = record {
  id = bt.id;
  account_id = bt.account_id;
  date = bt.date;
  name = or_text bt.merchant_name (lit "Unknown");
  merchant = bt.merchant_name;
  amount = bt.amount;
  pending = bt.pending;
  category = some (record {
    primary = chosen_primary bt;
    detailed = kept_detailed (chosen_primary bt) (chosen_detailed bt);
    confidence_level = nonempty bt.category_confidence;
  });
  account_name = bt.account_name;
  account_type = some bt.account_type;
  account_mask = bt.account_mask;
  provider = bt.provider;
  running_balance = bt.running_balance;
  location = bt.location;
  custom_category = bt.custom_category;
  custom_subcategory = bt.custom_subcategory;
  rule_category = bt.rule_category;
  rule_subcategory = bt.rule_subcategory;
}
