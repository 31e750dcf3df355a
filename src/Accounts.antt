-- ===== src/Accounts.antt =====
-- frontend/src/hooks/useAccountFilter.tsx, with the types of context/AccountFilterContext.tsx: the
-- accounts of the user and the ones that are selected. `to_number` stands for `Number(text)`, with
-- `none` where it is not finite.
pub mod Grouping
pub mod Selection
mod Tests
use sumurai.Prelude.{
  ℕ, ltb, ◌==◌, Bool, true, false, not, ◌&&◌, ◌||◌, Option, none, some, List, [], ◌∷◌, ◌++◌, map,
  filter, all, length, if◌then◌else◌, get_or, or_else,
}
use sumurai.Prelude.Int.{ℤ, neg}
use sumurai.Prelude.Text.{Text, lit, eq, is_empty, is_digit, trim, starts_with, contains, or_text}
use sumurai.Types.{FinancialProvider, plaid}

pub record ProviderAccount : Type 0 where
  pub id : Text
  pub name : Text
  pub account_type : Text
  pub balance_ledger : Option ℤ
  pub balance_available : Option ℤ
  pub mask : Option Text
  pub provider : FinancialProvider
  pub institution_name : Text
  pub provider_account_id : Option Text
  pub provider_connection_id : Option Text

-- What a balance of the response may be: a finite number, a text, or another value.
pub data Value : Type 0 where
  number : ℤ → Value
  text : Text → Value
  other_value : Value

-- An account of the response. A field that is null or undefined is `none`, and a balance that is
-- one of them is `other_value`.
pub record FetchedAccount : Type 0 where
  pub id : Text
  pub name : Text
  pub account_type : Text
  pub balance_ledger : Value
  pub balance_current : Value
  pub balance_available : Value
  pub ledger : Value
  pub available : Value
  pub mask : Option Text
  pub provider : Option FinancialProvider
  pub institution_name : Option Text
  pub legacy_institution_name : Option Text
  pub provider_account_id : Option Text
  pub provider_connection_id : Option Text
  pub plaid_connection_id : Option Text
  pub connection_id : Option Text

-- `/[^0-9.-]/`
pub is_number_character : ℕ → Bool
is_number_character c = is_digit c || (c == b'.') || (c == b'-')

-- `s.endsWith(')')`
pub ends_with_parenthesis : Text → Bool
ends_with_parenthesis [] = false
ends_with_parenthesis (c ∷ []) = c == b')'
ends_with_parenthesis (c ∷ d ∷ s) = ends_with_parenthesis (d ∷ s)

pub negate_if : Bool → Option ℤ → Option ℤ
negate_if b none = none
negate_if b (some n) = some (if b then neg n else n)

module _ (to_number : Text → Option ℤ) where
  pub parse_balance : Value → Option ℤ
  parse_balance (number n) = some n
  parse_balance (text s) =
      let trimmed = trim s in
      let normalized = filter is_number_character trimmed in
      if is_empty normalized
      then none
      else negate_if (starts_with trimmed (lit "(") && ends_with_parenthesis trimmed)
          (to_number normalized)
  parse_balance other_value = none

  pub map_account : FetchedAccount → ProviderAccount
  map_account a = record {
    id = a.id;
    name = a.name;
    account_type = a.account_type;
    balance_ledger =
        or_else (parse_balance a.balance_ledger)
          (or_else (parse_balance a.balance_current) (parse_balance a.ledger));
    balance_available =
        or_else (parse_balance a.balance_available)
          (or_else (parse_balance a.balance_current) (parse_balance a.available));
    mask = a.mask;
    provider = get_or a.provider plaid;
    institution_name =
        get_or (or_else a.institution_name a.legacy_institution_name) (lit "Unknown Bank");
    provider_account_id = a.provider_account_id;
    provider_connection_id =
        or_else a.provider_connection_id (or_else a.plaid_connection_id a.connection_id);
  }

-- The object of the accounts by bank, in the order in which the banks first come.
abbrev pub Banks : Type 0
Banks = List (Text × List ProviderAccount)

pub bank_name : ProviderAccount → Text
bank_name a = or_text (some a.institution_name) (lit "Unknown Bank")

pub add_to_bank : Text → ProviderAccount → Banks → Banks
add_to_bank bank a [] = (bank, a ∷ []) ∷ []
add_to_bank bank a ((b, items) ∷ bs) =
    if eq b bank then (b, items ++ a ∷ []) ∷ bs else (b, items) ∷ add_to_bank bank a bs

pub group_from : Banks → List ProviderAccount → Banks
group_from acc [] = acc
group_from acc (a ∷ items) = group_from (add_to_bank (bank_name a) a acc) items

pub group_accounts_by_bank : List ProviderAccount → Banks
group_accounts_by_bank items = group_from [] items

-- `accountsByBank[bankName] || []`
pub accounts_of : Text → Banks → List ProviderAccount
accounts_of bank [] = []
accounts_of bank ((b, items) ∷ bs) = if eq b bank then items else accounts_of bank bs

pub ids : List ProviderAccount → List Text
ids accounts = map (λ a. a.id) accounts

-- `previous` is the list of all ids behind `previousAllAccountIdsRef`.
pub record FilterState : Type 0 where
  pub accounts : List ProviderAccount
  pub selected : List Text
  pub loading : Bool
  pub previous : List Text

abbrev pub initial : FilterState
initial = record { accounts = []; selected = []; loading = false; previous = [] }

pub is_all_accounts_selected : FilterState → Bool
is_all_accounts_selected s =
    ltb 0 (length (ids s.accounts)) && (length s.selected == length (ids s.accounts))

-- `if (!l.includes(id)) l.push(id)`, for each id
pub push_new : List Text → List Text → List Text
push_new l [] = l
push_new l (i ∷ is) = push_new (if contains l i then l else l ++ i ∷ []) is

pub had_all_selected : List Text → List Text → Bool
had_all_selected previous prev =
    ltb 0 (length previous) && (length prev == length previous) && all (contains prev) previous

-- The selection after the accounts with the ids `new` have been fetched. `arraysEqual` only keeps
-- an equal list from being replaced.
pub next_selection : List Text → List Text → List Text → List Text
next_selection previous new [] = new
next_selection previous new (i ∷ is) =
    let prev = i ∷ is in
    if had_all_selected previous prev
    then new
    else push_new (filter (contains new) prev) (filter (λ j. not (contains previous j)) new)

pub start_fetch : FilterState → FilterState
start_fetch s = record s { loading = true }

pub finish_fetch : List ProviderAccount → FilterState → FilterState
finish_fetch accounts s = record {
  accounts = accounts;
  selected = next_selection s.previous (ids accounts) s.selected;
  loading = false;
  previous = ids accounts;
}

pub fail_fetch : FilterState → FilterState
fail_fetch s = initial

pub toggle_bank : Text → FilterState → FilterState
toggle_bank bank s =
    let bank_ids = ids (accounts_of bank (group_accounts_by_bank s.accounts)) in
    record s {
      selected =
          if all (contains s.selected) bank_ids
          then filter (λ i. not (contains bank_ids i)) s.selected
          else push_new s.selected bank_ids;
    }

-- `setSelectedAccountIds(allAccountIds)`
pub select_all : FilterState → FilterState
select_all s = record s { selected = ids s.accounts }

pub toggle_account : Text → FilterState → FilterState
toggle_account i s = record s {
  selected =
      if contains s.selected i then filter (λ j. not (eq j i)) s.selected else s.selected ++ i ∷ [];
}
