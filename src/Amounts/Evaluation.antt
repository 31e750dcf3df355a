-- ===== src/Amounts/Evaluation.antt =====
-- What a run of the amount functions unfolds, for tests.
use sumurai.Prelude.Int.{neg}
use sumurai.Categories.Evaluation.{categories}
use sumurai.Amounts.{
  get_numeric_amount, is_credit_account, is_teller, get_display_amount,
  is_transaction_category_excluded, get_net_spending_amount, is_spending_transaction,
}

unfoldable pub amounts : Unit {0}
unfolding neg categories get_numeric_amount is_credit_account is_teller get_display_amount
    is_transaction_category_excluded get_net_spending_amount is_spending_transaction
amounts = tt
