-- ===== src/Transactions/Edits.antt =====
-- frontend/src/features/transactions/hooks/useTransactions.ts: loading the list, and the edits of
-- categories, each as a function of the answers of the server. `name_le` stands for the order of
-- names by `localeCompare`, and `fetch` for `TransactionService.getTransactions`.
pub mod Reload
pub mod Failures
use sumurai.Prelude.{
  ℕ, Bool, true, false, not, ◌&&◌, ◌||◌, Option, none, some, List, [], ◌∷◌, ◌++◌, map, filter,
  if◌then◌else◌, or_else, get_or, ◌==◌,
}
use sumurai.Prelude.Text.{Text, lit, eq, is_empty, or_text}
use sumurai.Prelude.Sorting.{sort_by}
use sumurai.Types.{Transaction, TransactionCategory}
use sumurai.Categories.{UserCategory}
use sumurai.Http.{ApiError, Thrown, api_error, plain_error, no_error, Result, ok, throw}
use sumurai.Filters.{Period}
use sumurai.Transformer.{has_text, nonempty}
use sumurai.Optimistic.{replace_item, without_item}
use sumurai.Transactions.Globs.{match_glob}

-- `{ ...category, primary, ...(sub ? { detailed: sub } : {}) }`
pub recategorized : Text → Option Text → Option TransactionCategory → TransactionCategory
recategorized primary sub none = record {
  primary = primary;
  detailed = nonempty sub;
  confidence_level = none;
}
recategorized primary sub (some c) = record c {
  primary = primary;
  detailed = or_else (nonempty sub) c.detailed;
}

pub set_category : Text → Option Text → Transaction → Transaction
set_category name sub t = record t {
  custom_category = some name;
  custom_subcategory = sub;
  category = some (recategorized name sub t.category);
}

-- A new subcategory is shown even when its name is empty.
pub assign_created : Text → Text → Transaction → Transaction
assign_created major name t = record t {
  custom_category = some major;
  custom_subcategory = some name;
  category = some (record (recategorized major none t.category) { detailed = some name });
}

pub set_rule : Text → Option Text → Transaction → Transaction
set_rule name sub t = record t {
  custom_category = none;
  custom_subcategory = none;
  rule_category = some name;
  rule_subcategory = sub;
  category = some (recategorized name sub t.category);
}

-- the target of the rule, or another match that the user has not categorised
pub takes_rule : Text → Text → Transaction → Bool
takes_rule i pattern t =
    eq t.id i
    || (not (has_text t.custom_category) && match_glob pattern (or_text t.merchant t.name))

pub apply_rule : Text → Text → Text → Option Text → List Transaction → List Transaction
apply_rule i pattern name sub prev =
    map (λ t. if takes_rule i pattern t then set_rule name sub t else t) prev

-- A category of the user, with its id.
abbrev pub Saved : Type 0
Saved = Text × UserCategory

pub record ListState : Type 0 where
  pub all : List Transaction
  pub error : Option Text
  pub is_loading : Bool
  pub user_categories : List Saved

-- what `load` reads of the account filter and of the other state of the page
pub record Scope : Type 0 where
  pub accounts_loading : Bool
  pub all_account_ids : List Text
  pub selected_account_ids : List Text
  pub is_all_accounts_selected : Bool
  pub selected_account_id : Option Text
  pub month_range : Period

abbrev pub has_none : List Text → Bool
has_none [] = true
has_none (i ∷ is) = false

-- `filters.accountIds`
pub requested_accounts : Scope → Option (List Text)
requested_accounts c =
    if has_text c.selected_account_id
    then some (get_or c.selected_account_id [] ∷ [])
    else if not c.is_all_accounts_selected && not (has_none c.selected_account_ids)
    then some c.selected_account_ids
    else none

pub is_unauthorized : Thrown → Bool
is_unauthorized (api_error e) = e.status == 401
is_unauthorized (plain_error m) = false
is_unauthorized no_error = false

pub load_message : Thrown → Text
load_message e =
    if is_unauthorized e
    then lit "You are not authenticated. Please log in again."
    else lit "Failed to load transactions."

pub finish_load : Result (List Transaction) → ListState → ListState
finish_load (ok ts) s = record s { all = ts; error = none }
finish_load (throw e) s = record s { all = []; error = some (load_message e) }

-- The state once the call has ended. The others wait for it behind `is_loading`.
pub load :
    (Option (List Text) → Period → Result (List Transaction)) → Scope → Bool → ListState → ListState
load fetch c is_silent s =
    let started = record s { is_loading = if is_silent then s.is_loading else false } in
    if c.accounts_loading
    then s
    else if not (has_none c.all_account_ids) && has_none c.selected_account_ids
    then record started { all = []; error = none }
    else finish_load (fetch (requested_accounts c) c.month_range) started

pub update_transaction_category :
    Text → Text → Option Text → Result (Unit {0}) → ListState → ListState × Result (Unit {0})
update_transaction_category i name sub (ok done) s =
    (record s { all = replace_item (λ t. t.id) i (set_category name sub) s.all }, ok tt)
update_transaction_category i name sub (throw e) s = (s, throw e)

-- `reload` is the call of `load` that follows.
pub reset_transaction_category :
    (ListState → ListState) → Result (Unit {0}) → ListState → ListState × Result (Unit {0})
reset_transaction_category reload (ok done) s = (reload s, ok tt)
reset_transaction_category reload (throw e) s = (s, throw e)

pub finish_assign :
    Text → Text → Text → Result (Unit {0}) → ListState → ListState × Result (Unit {0})
finish_assign i major name (ok done) s =
    (record s { all = replace_item (λ t. t.id) i (assign_created major name) s.all }, ok tt)
finish_assign i major name (throw e) s = (s, throw e)

pub create_category_and_assign :
    (Text → Text → Bool)
    → Text
    → Text
    → Option Text
    → Result Saved
    → Result (Unit {0})
    → ListState
    → ListState × Result (Unit {0})
create_category_and_assign name_le i name parent (ok created) assigned s =
    finish_assign i (or_text parent (lit "Shopping")) name assigned (record s {
      user_categories =
          sort_by (λ a b. name_le a.1.name b.1.name) (s.user_categories ++ created ∷ []);
    })
create_category_and_assign name_le i name parent (throw e) assigned s = (s, throw e)

-- The list changes before the server answers. Whether the override of the target is then removed
-- changes nothing here.
pub create_category_rule :
    (ListState → ListState)
    → Text
    → Text
    → Text
    → Option Text
    → Result (Unit {0})
    → ListState
    → ListState × Result (Unit {0})
create_category_rule reload i pattern name sub (ok done) s =
    (reload (record s { all = apply_rule i pattern name sub s.all }), ok tt)
create_category_rule reload i pattern name sub (throw e) s =
    (record s { all = apply_rule i pattern name sub s.all }, throw e)

pub delete_user_category :
    (ListState → ListState) → Text → Result (Unit {0}) → ListState → ListState × Result (Unit {0})
delete_user_category reload i (ok done) s =
    (reload (record s { user_categories = filter (λ c. not (eq c.0 i)) s.user_categories }), ok tt)
delete_user_category reload i (throw e) s = (s, throw e)

pub mark_transaction_duplicate :
    Text → Result (Unit {0}) → ListState → ListState × Result (Unit {0})
mark_transaction_duplicate i (ok done) s =
    (record s { all = without_item (λ t. t.id) i s.all }, ok tt)
mark_transaction_duplicate i (throw e) s = (s, throw e)
