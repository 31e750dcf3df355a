-- ===== src/BudgetList.antt =====
-- frontend/src/features/budgets/hooks/useBudgets.ts: the budgets of the user, with the transactions of
-- a month. A callback that waits for the server is two functions, before and after the answer;
-- `meanwhile` is what other code does to the state in between.
pub mod Overlap
pub mod SameRender
pub mod Months
mod Tests
use sumurai.Prelude.{
  ℕ, Bool, true, false, not, ◌&&◌, ◌||◌, Option, none, some, List, [], ◌∷◌, ◌++◌, any, filter, map,
  if◌then◌else◌, or_else, get_or, ◌==◌, ◌>>=◌,
}
use sumurai.Prelude.Int.{ℤ}
use sumurai.Prelude.Text.{Text, lit, eq, to_lower_case, join, or_text, contains}
use sumurai.Prelude.Sorting.{sort_by}
use sumurai.Types.{Budget, BudgetFrequency, Transaction}
use sumurai.Categories.{resolve_major_category}
use sumurai.Categories.Taxonomy.{
  CategoryGroupType, expense, income, exclude_from_budget, CategoryDefinition, categories_taxonomy,
}
use sumurai.Amounts.{primary_of}
use sumurai.Budgets.{calculate_spent}
use sumurai.Http.{Thrown, api_error, plain_error, no_error, Result, ok, throw}
use sumurai.Optimistic.{replace_item, without_item, finish_create}

pub record BudgetState : Type 0 where
  pub is_loading : Bool
  pub transactions_loading : Bool
  pub error : Option Text
  pub validation_error : Option Text
  pub budgets : List Budget
  pub transactions : List Transaction
  pub budgets_ready : Bool
  pub loaded : Bool
  pub last_range : Option Text

-- what the hook reads of the account filter
pub record AccountScope : Type 0 where
  pub selected_account_ids : List Text
  pub is_all_accounts_selected : Bool
  pub all_account_ids : List Text
  pub accounts_loading : Bool

abbrev pub budget_id : Budget → Text
budget_id b = b.id

pub extract_status : Thrown → Option ℕ
extract_status (api_error e) = some e.status
extract_status (plain_error m) = none
extract_status no_error = none

pub has_status : ℕ → Thrown → Bool
has_status status e = get_or (extract_status e) 0 == status

pub not_authenticated : Text
not_authenticated = lit "You are not authenticated. Please log in again."

pub exists_message : Text → Text
exists_message category = lit "A budget for \"" ++ category ++ lit "\" already exists."

-- the test of `add`, on the budgets of its render
pub exists_budget : Text → List Budget → Bool
exists_budget category budgets =
    any (λ b. eq (to_lower_case b.category) (to_lower_case category)) budgets

pub new_budget : Text → Text → ℤ → Option BudgetFrequency → Option Bool → Budget
new_budget i category amount frequency rollover = record {
  id = i;
  category = category;
  amount = amount;
  frequency = frequency;
  rollover = rollover;
  rollover_start_month = none;
  created_at = none;
}

pub create_message : Text → Thrown → Text
create_message category e =
    if has_status 409 e
    then exists_message category
    else if has_status 401 e
    then not_authenticated
    else lit "Failed to create budget."

-- `add` up to the answer, when the category is new: the temporary budget is shown.
pub start_add : Budget → BudgetState → BudgetState
start_add temp s = record s {
  validation_error = none;
  error = none;
  budgets = s.budgets ++ temp ∷ [];
}

pub finish_add : Budget → Result Budget → BudgetState → BudgetState × Result (Unit {0})
finish_add temp (ok created) s =
    (record s { budgets = (finish_create budget_id temp (ok created) s.budgets).0 }, ok tt)
finish_add temp (throw e) s = (
  record s {
    budgets = (finish_create budget_id temp (throw e) s.budgets).0;
    error = some (create_message temp.category e);
  },
  throw e,
)

pub reject_add : Text → BudgetState → BudgetState × Result (Unit {0})
reject_add category s = (
  record s { validation_error = some (exists_message category); error = none },
  throw (plain_error (exists_message category)),
)

-- `rendered` is the list of the render that the call belongs to, which need not be the newest list.
pub add :
    List Budget
    → Budget
    → Result Budget
    → (BudgetState → BudgetState)
    → BudgetState
    → BudgetState × Result (Unit {0})
add rendered temp reply meanwhile s =
    if exists_budget temp.category rendered
    then reject_add temp.category s
    else finish_add temp reply (meanwhile (start_add temp s))

-- the change that `update` shows at once; a field that is not given stays
pub changed_budget : ℤ → Option BudgetFrequency → Option Bool → Budget → Budget
changed_budget amount frequency rollover b = record b {
  amount = amount;
  frequency = or_else frequency b.frequency;
  rollover = or_else rollover b.rollover;
}

pub start_update : Text → ℤ → Option BudgetFrequency → Option Bool → BudgetState → BudgetState
start_update i amount frequency rollover s = record s {
  error = none;
  budgets = replace_item budget_id i (changed_budget amount frequency rollover) s.budgets;
}

pub failure_message : Text → Thrown → Text
failure_message other e = if has_status 401 e then not_authenticated else other

pub finish_update : Text → List Budget → Result Budget → BudgetState → BudgetState
finish_update i snapshot (ok updated) s = record s {
  budgets = replace_item budget_id i (λ b. updated) s.budgets;
}
finish_update i snapshot (throw e) s = record s {
  budgets = snapshot;
  error = some (failure_message (lit "Failed to update budget.") e);
}

pub update :
    List Budget
    → Text
    → ℤ
    → Option BudgetFrequency
    → Option Bool
    → Result Budget
    → (BudgetState → BudgetState)
    → BudgetState
    → BudgetState
update rendered i amount frequency rollover reply meanwhile s =
    finish_update i rendered reply (meanwhile (start_update i amount frequency rollover s))

pub start_remove : Text → BudgetState → BudgetState
start_remove i s = record s { error = none; budgets = without_item budget_id i s.budgets }

pub finish_remove : List Budget → Result (Unit {0}) → BudgetState → BudgetState
finish_remove snapshot (ok done) s = s
finish_remove snapshot (throw e) s = record s {
  budgets = snapshot;
  error = some (failure_message (lit "Failed to delete budget.") e);
}

pub remove :
    List Budget → Text → Result (Unit {0}) → (BudgetState → BudgetState) → BudgetState → BudgetState
remove rendered i reply meanwhile s = finish_remove rendered reply (meanwhile (start_remove i s))

abbrev pub has_none : List Text → Bool
has_none [] = true
has_none (i ∷ is) = false

pub should_filter : AccountScope → Bool
should_filter c = not (has_none c.selected_account_ids) && not c.is_all_accounts_selected

unfoldable pub nothing_selected : AccountScope → Bool
nothing_selected c = has_none c.selected_account_ids && not (has_none c.all_account_ids)

-- the key of what has been loaded last
pub range_key : Text → Text → AccountScope → Text
range_key start end c =
    start
    ++ lit ":"
    ++ end
    ++ lit ":"
    ++ (if nothing_selected c
        then lit "none"
        else if should_filter c
        then join (lit ",") c.selected_account_ids
        else lit "all")

pub loaded_transactions : Result (List Transaction) → List Transaction
loaded_transactions (ok ts) = ts
loaded_transactions (throw e) = []

-- `fetch` stands for `TransactionService.getTransactions`, on the accounts to ask for.
pub load_transactions :
    (Option (List Text) → Result (List Transaction))
    → Text
    → Text
    → AccountScope
    → BudgetState
    → BudgetState
load_transactions fetch start end c s =
    let keyed = record s { last_range = some (range_key start end c) } in
    if c.accounts_loading
    then keyed
    else if nothing_selected c
    then record keyed { transactions = [] }
    else record keyed {
      transactions =
          loaded_transactions
            (fetch (if should_filter c then some c.selected_account_ids else none));
      transactions_loading = false;
    }

pub load_budgets : Result (List Budget) → BudgetState → BudgetState
load_budgets (ok list) s = record s {
  budgets = list;
  loaded = true;
  budgets_ready = true;
  is_loading = false;
}
load_budgets (throw e) s = record s {
  budgets = [];
  loaded = false;
  is_loading = false;
  error = some (failure_message (lit "Failed to load budgets.") e);
}

-- `reload` is the call of `load_transactions` with the range of the month.
pub load : Result (List Budget) → (BudgetState → BudgetState) → BudgetState → BudgetState
load reply reload s =
    let started = record s { error = none; validation_error = none } in
    if s.loaded
    then reload (record started { budgets_ready = true })
    else let fetched = load_budgets reply started in
      if fetched.loaded then reload fetched else fetched

-- the effect on a change of the range or of the accounts
pub reload_on_change :
    (BudgetState → BudgetState) → Text → Text → AccountScope → BudgetState → BudgetState
reload_on_change reload start end c s =
    if not s.budgets_ready || eq (range_key start end c) (get_or s.last_range [])
    then s
    else reload s

pub record BudgetProgressEntry : Type 0 where
  pub budget : Budget
  pub spent : ℤ

pub computed_budgets :
    List Transaction → Text → Text → List Budget → Option (List BudgetProgressEntry)
computed_budgets ts start end [] = some []
computed_budgets ts start end (b ∷ bs) = do
  spent ← calculate_spent ts b.category start end none
  rest ← computed_budgets ts start end bs
  some (record { budget = b; spent = spent } ∷ rest)

pub add_name : Text → List Text → List Text
add_name name names = if contains names name then names else names ++ name ∷ []

is_expense : CategoryGroupType → Bool
is_expense expense = true
is_expense income = false
is_expense exclude_from_budget = false

pub expense_names : List Text → List CategoryDefinition → List Text
expense_names names [] = names
expense_names names (c ∷ cs) =
    expense_names (if is_expense c.type then add_name c.name names else names) cs

pub used_names : List Text → List Transaction → List Text
used_names names [] = names
used_names names (t ∷ ts) =
    let major = resolve_major_category [] (some (or_text (primary_of t.category) (lit "OTHER"))) in
    used_names (if eq major (lit "Uncategorized") then names else add_name major names) ts

-- `name_le` stands for the order of names by `localeCompare`.
pub category_options : (Text → Text → Bool) → List Transaction → List Text
category_options name_le ts = sort_by name_le (used_names (expense_names [] categories_taxonomy) ts)
