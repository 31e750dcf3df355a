-- ===== src/Connections/Normalizer.antt =====
-- frontend/src/domain/AccountNormalizer.ts: the accounts of a response in one shape. `to_cents` and
-- `to_count` stand for `Number(text)` of an amount and of a count, with `none` where it is not finite.
use sumurai.Prelude.{
  ℕ, Option, none, some, List, map, get_or, or_else, ◌==◌, if◌then◌else◌, ◌||◌, [],
}
use sumurai.Prelude.Int.{ℤ, pos}
use sumurai.Prelude.Text.{Text, lit, eq, is_empty, to_lower_case}
use sumurai.Dates.{number_text}
use sumurai.Accounts.{Value, number, text, other_value}

-- a field that holds a text or a whole number
pub data IdField : Type 0 where
  string_id : Text → IdField
  number_id : ℕ → IdField

pub data AccountType : Type 0 where
  checking savings credit loan investment other : AccountType

-- A field that is null or undefined is `none`, and a number among them is `other_value`.
pub record BackendAccount : Type 0 where
  pub id : IdField
  pub name : Option Text
  pub account_name : Option Text
  pub official_name : Option Text
  pub institution_name : Option Text
  pub mask : Option Text
  pub account_mask : Option Text
  pub last_four : Option IdField
  pub last_four_camel : Option IdField
  pub account_type : Option Text
  pub type_field : Option Text
  pub account_type_camel : Option Text
  pub subtype : Option Text
  pub balance_current : Value
  pub balance_ledger : Value
  pub current_balance : Value
  pub transaction_count : Value
  pub provider_connection_id : Option IdField
  pub connection_id : Option IdField
  pub plaid_connection_id : Option IdField
  pub provider_connection_id_camel : Option IdField
  pub connection_id_camel : Option IdField

-- what a connection shows of an account
pub record ShownAccount : Type 0 where
  pub id : Text
  pub name : Text
  pub mask : Text
  pub type_of : AccountType
  pub balance : Option ℤ
  pub transactions : ℤ

pub record NormalizedAccount : Type 0 where
  pub shown : ShownAccount
  pub connection_key : Option Text

pub to_text : IdField → Text
to_text (string_id s) = s
to_text (number_id n) = number_text n

-- `connectionId ? String(connectionId) : null`
pub key_of : Option IdField → Option Text
key_of none = none
key_of (some (string_id s)) = if is_empty s then none else some s
key_of (some (number_id n)) = if n == 0 then none else some (number_text n)

pub map_account_type : Option Text → AccountType
map_account_type t =
    let normalized = to_lower_case (get_or t []) in
    if eq normalized (lit "depository") || eq normalized (lit "checking")
    then AccountType.checking
    else if eq normalized (lit "savings")
    then AccountType.savings
    else if eq normalized (lit "credit") || eq normalized (lit "credit card")
    then AccountType.credit
    else if eq normalized (lit "loan")
    then AccountType.loan
    else if eq normalized (lit "investment")
        || eq normalized (lit "investments")
        || eq normalized (lit "brokerage")
        || eq normalized (lit "401k")
        || eq normalized (lit "ira")
    then AccountType.investment
    else AccountType.other

pub parse_numeric : (Text → Option ℤ) → Value → Option ℤ
parse_numeric to_number (number n) = some n
parse_numeric to_number (text s) = to_number s
parse_numeric to_number other_value = none

pub id_text : Option IdField → Option Text
id_text none = none
id_text (some i) = some (to_text i)

module _ (to_cents to_count : Text → Option ℤ) where
  pub shown_account : BackendAccount → ShownAccount
  shown_account a = record {
    id = to_text a.id;
    name =
        get_or
          (or_else a.name (or_else a.account_name (or_else a.official_name a.institution_name)))
          (lit "Account");
    mask =
        get_or
          (or_else a.mask
            (or_else a.account_mask (or_else (id_text a.last_four) (id_text a.last_four_camel))))
          (lit "0000");
    type_of =
        map_account_type
          (or_else a.account_type (or_else a.type_field (or_else a.account_type_camel a.subtype)));
    balance = or_else (parse_numeric to_cents a.balance_current) (
        or_else (parse_numeric to_cents a.balance_ledger)
          (parse_numeric to_cents a.current_balance));
    transactions = get_or (parse_numeric to_count a.transaction_count) (pos 0);
  }

  pub connection_of : BackendAccount → Option Text
  connection_of a = key_of (
      or_else a.provider_connection_id (
        or_else a.connection_id (
          or_else a.plaid_connection_id
            (or_else a.provider_connection_id_camel a.connection_id_camel))))

  pub normalize_account : BackendAccount → NormalizedAccount
  normalize_account a = record { shown = shown_account a; connection_key = connection_of a }

  pub normalize : List BackendAccount → List NormalizedAccount
  normalize accounts = map normalize_account accounts
