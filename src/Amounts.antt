-- ===== src/Amounts.antt =====
-- frontend/src/utils/transactionAmounts.ts: what a transaction shows and what it spends.
pub mod Spending
pub mod Evaluation
mod Tests
use sumurai.Prelude.{
  Bool, true, false, not, ◌&&◌, ◌||◌, Option, none, some, List, [], ◌∷◌, if◌then◌else◌, get_or,
}
use sumurai.Prelude.Int.{ℤ, pos, neg, ltb_ℤ}
use sumurai.Prelude.Text.{Text, lit, eq, to_lower_case, trim}
use sumurai.Types.{Transaction, TransactionCategory, FinancialProvider, plaid, teller}
use sumurai.Categories.{is_spending_excluded_category, norm_key}

pub get_numeric_amount : Transaction → ℤ
get_numeric_amount t = get_or t.amount (pos 0)

-- `accountType === 'credit' || accountType === 'credit card'`, in lower case
pub is_credit_account : Transaction → Bool
is_credit_account t =
    let account_type = to_lower_case (get_or t.account_type []) in
    eq account_type (lit "credit") || eq account_type (lit "credit card")

is_teller : Option FinancialProvider → Bool
is_teller (some teller) = true
is_teller _ = false

pub get_display_amount : Transaction → ℤ
get_display_amount t =
    let amount = get_numeric_amount t in
    if is_teller t.provider && is_credit_account t then amount else neg amount

-- `transaction.category?.primary` and `transaction.category?.detailed`
abbrev pub primary_of : Option TransactionCategory → Option Text
primary_of none = none
primary_of (some c) = some c.primary

abbrev pub detailed_of : Option TransactionCategory → Option Text
detailed_of none = none
detailed_of (some c) = c.detailed

pub is_transaction_category_excluded : Transaction → Bool
is_transaction_category_excluded t =
    is_spending_excluded_category (primary_of t.category)
    || is_spending_excluded_category (detailed_of t.category)
    || is_spending_excluded_category t.custom_category
    || is_spending_excluded_category t.rule_category
    || (is_credit_account t
        && eq (norm_key (trim (get_or (primary_of t.category) []))) (lit "loanpayments"))

-- `displayAmount >= 0` is `not (displayAmount < 0)`.
pub get_net_spending_amount : Transaction → ℤ
get_net_spending_amount t =
    let display = get_display_amount t in
    if is_transaction_category_excluded t
    then pos 0
    else if not (is_credit_account t)
    then (if not (ltb_ℤ display (pos 0)) then pos 0 else neg display)
    else neg display

pub is_spending_transaction : Transaction → Bool
is_spending_transaction t =
    if not (ltb_ℤ (get_display_amount t) (pos 0))
    then false
    else if is_transaction_category_excluded t
    then false
    else true
