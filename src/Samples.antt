-- ===== src/Samples.antt =====
-- Transactions and budgets for the tests.
use sumurai.Prelude.{true, none, some, List, [], ◌∷◌}
use sumurai.Prelude.Int.{ℤ, pos}
use sumurai.Prelude.Text.{Text, lit}
use sumurai.Types.{Transaction, Budget, teller}

-- a posted transaction at Teller: id, date, account type, category, amount in cents
abbrev pub posted : Text → Text → Text → Text → ℤ → Transaction
posted id date account_type category amount = record {
  id = id;
  account_id = some (lit "a1");
  date = date;
  name = lit "Store";
  merchant = none;
  amount = some amount;
  pending = none;
  category = some (record { primary = category; detailed = none; confidence_level = none });
  account_name = lit "Everyday";
  account_type = some account_type;
  account_mask = none;
  provider = some teller;
  running_balance = none;
  location = none;
  custom_category = none;
  custom_subcategory = none;
  rule_category = none;
  rule_subcategory = none;
}

abbrev pub january : Transaction
january = posted (lit "t1") (lit "2024-01-31") (lit "depository") (lit "groceries") (pos 4000)

abbrev pub march : Transaction
march = posted (lit "t2") (lit "2024-03-05") (lit "Depository") (lit "GROCERIES") (pos 2500)

-- money back on a credit card
abbrev pub refund : Transaction
refund = posted (lit "t3") (lit "2024-03-09") (lit "credit card") (lit "Groceries") (pos 500)

abbrev pub transfer : Transaction
transfer = posted (lit "t4") (lit "2024-03-10") (lit "checking") (lit "TRANSFER_OUT") (pos 9900)

abbrev pub transactions : List Transaction
transactions = january ∷ march ∷ refund ∷ transfer ∷ []

-- 50.00 a month, rolled over since November 2023
abbrev pub groceries : Budget
groceries = record {
  id = lit "b1";
  category = lit "Groceries";
  amount = pos 5000;
  frequency = none;
  rollover = some true;
  rollover_start_month = some (lit "2023-11");
  created_at = none;
}
