-- ===== src/Amounts/Spending.antt =====
-- frontend/src/utils/transactionAmounts.ts: how the sign of the amount, the kind of account and the
-- category decide what a transaction spends.
use sumurai.Prelude.{◌≡◌, ◌↔◌, true, false, arith}
use sumurai.Prelude.Int.{pos, neg_parts, ◌<ℤ◌}
use sumurai.Types.{Transaction}
use sumurai.Amounts.{
  get_display_amount, is_credit_account, is_transaction_category_excluded, get_net_spending_amount,
  is_spending_transaction,
}

-- A transaction counts as spending exactly when its net spending amount is above zero.
pub is_spending_transaction_iff :
    (t : Transaction) → (is_spending_transaction t ≡ true) ↔ (pos 0 <ℤ get_net_spending_amount t)
unfolding is_spending_transaction get_net_spending_amount
is_spending_transaction_iff t = ground (arith, neg_parts (get_display_amount t))

-- Net spending is never below zero on an account that is no credit account. It is below zero only
-- for money that flows into a credit account in a category that spending does not leave out, such
-- as a refund.
pub get_net_spending_amount_neg_iff :
    (t : Transaction)
    → (get_net_spending_amount t <ℤ pos 0) ↔ (
        (is_credit_account t ≡ true)
        × (is_transaction_category_excluded t ≡ false)
        × (pos 0 <ℤ get_display_amount t))
unfolding get_net_spending_amount
get_net_spending_amount_neg_iff t = ground (arith, neg_parts (get_display_amount t))
