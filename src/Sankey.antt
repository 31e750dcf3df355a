-- ===== src/Sankey.antt =====
-- frontend/src/domain/SankeyCalculator.ts: the amounts behind the diagram of cash flows, in cents. A
-- map is the list of its entries, in the order in which their keys first came.
pub mod Balance
pub mod Colors
pub mod Diagram
mod Tests
use sumurai.Prelude.{
  ℕ, ◌+◌, ◌*◌, Bool, true, false, not, ◌&&◌, ◌||◌, Option, none, some, List, [], ◌∷◌, ◌++◌, filter,
  length, max, if◌then◌else◌, get_or, or_else, ltb, leb, ◌==◌,
}
use sumurai.Prelude.Int.{ℤ, pos, pos_part, neg_part, sub_ℕ, ltb_ℤ}
use sumurai.Prelude.Text.{Text, lit, eq, is_empty, to_lower_case, trim, includes, starts_with}
use sumurai.Prelude.Sorting.{sort_by}
use sumurai.Types.{Transaction}
use sumurai.Categories.{format_category_name, resolve_major_category}
use sumurai.Amounts.{
  primary_of, detailed_of, get_numeric_amount, get_display_amount, get_net_spending_amount,
  is_spending_transaction,
}

-- the amounts under their names
abbrev pub Entries : Type 0
Entries = List (Text × ℕ)

unfoldable pub sum_entries : Entries → ℕ
sum_entries [] = 0
sum_entries ((k, n) ∷ es) = n + sum_entries es

-- `map.set(key, (map.get(key) ?? 0) + amount)`
unfoldable pub add_entry : Text → ℕ → Entries → Entries
add_entry key amount [] = (key, amount) ∷ []
add_entry key amount ((k, n) ∷ es) =
    if eq k key then (k, n + amount) ∷ es else (k, n) ∷ add_entry key amount es

-- the sort by falling amount
unfoldable pub not_less : Text × ℕ → Text × ℕ → Bool
not_less a b = leb b.1 a.1

-- under 30.00, and under 5 percent of the category
pub is_minor : ℕ → Text × ℕ → Bool
is_minor total e = ltb e.1 3000 && (if ltb 0 total then ltb (100 * e.1) (5 * total) else true)

pub group_minor_subcategories : Entries → ℕ → Entries
group_minor_subcategories subs total =
    let minor = filter (is_minor total) subs in
    if leb (length subs) 3
    then subs
    else if leb 2 (length minor) && ltb 0 (sum_entries minor)
    then sort_by not_less
        (filter (λ e. not (is_minor total e)) subs ++ (lit "Other", sum_entries minor) ∷ [])
    else subs

pub record CategoryFlow : Type 0 where
  pub name : Text
  pub total : ℕ
  pub subcategories : Entries

-- the accumulators of the loop
pub record Flows : Type 0 where
  pub inflow_by_source : Entries
  pub outflow_by_category : List CategoryFlow
  pub total_inflow : ℕ
  pub total_outflow : ℕ
  pub inflow_count : ℕ
  pub outflow_count : ℕ

abbrev pub no_flows : Flows
no_flows = record {
  inflow_by_source = [];
  outflow_by_category = [];
  total_inflow = 0;
  total_outflow = 0;
  inflow_count = 0;
  outflow_count = 0;
}

pub raw_category : Transaction → Text
raw_category t =
    get_or (or_else t.custom_category (or_else t.rule_category (primary_of t.category))) []

-- the major category of a transaction
pub resolved_major : Transaction → Text
resolved_major t = resolve_major_category [] (some (raw_category t))

-- transfers between accounts and payments of credit cards
pub is_internal : Transaction → Bool
is_internal t =
    let detailed = to_lower_case (get_or (detailed_of t.category) []) in
    eq (to_lower_case (resolved_major t)) (lit "transfer")
    || includes detailed (lit "credit card payment")
    || includes detailed (lit "cash spending transfer")

pub is_income_category : Transaction → Bool
is_income_category t =
    let major = to_lower_case (resolved_major t) in
    let raw = to_lower_case (raw_category t) in
    eq major (lit "earned income")
    || eq major (lit "tax refund")
    || includes raw (lit "income")
    || includes raw (lit "paycheck")
    || includes raw (lit "salary")
    || includes raw (lit "bonus")

pub is_depository_inflow : Transaction → Bool
is_depository_inflow t =
    let account_type = to_lower_case (get_or t.account_type []) in
    (eq account_type (lit "depository")
      || eq account_type (lit "checking")
      || eq account_type (lit "savings"))
    && ltb_ℤ (pos 0) (get_display_amount t)
    && not (is_spending_transaction t)

pub inflow_amount : Transaction → ℕ
inflow_amount t =
    let shown = get_display_amount t in
    let amount = if ltb_ℤ (pos 0) shown then shown else get_numeric_amount t in
    pos_part amount + neg_part amount

pub source_name : Transaction → Text
source_name t =
    let raw =
      get_or (or_else t.custom_subcategory (or_else t.rule_subcategory (detailed_of t.category)))
        [] in
    let category = raw_category t in
    format_category_name (
      some (
        if not (is_empty raw) && not (eq (to_lower_case raw) (lit "other"))
        then raw
        else if is_empty category
        then lit "Paycheck"
        else category))

pub is_generic : Text → Text → Bool
is_generic sub major =
    let name = to_lower_case (trim sub) in
    is_empty sub
    || eq name (lit "other")
    || eq name (lit "general")
    || eq name (lit "uncategorized")
    || eq name (to_lower_case (trim major))
    || starts_with name (lit "other ")
    || starts_with name (lit "general ")

pub subcategory_name : Transaction → Text
subcategory_name t =
    let sub =
      get_or (or_else t.custom_subcategory (or_else t.rule_subcategory (detailed_of t.category)))
        (raw_category t) in
    format_category_name
      (some (if is_generic sub (resolved_major t) then resolved_major t else sub))

pub add_to_category : Text → Text → ℕ → List CategoryFlow → List CategoryFlow
add_to_category major sub amount [] =
    record { name = major; total = amount; subcategories = (sub, amount) ∷ [] } ∷ []
add_to_category major sub amount (c ∷ cs) =
    if eq c.name major
    then record c { total = c.total + amount; subcategories = add_entry sub amount c.subcategories }
      ∷ cs
    else c ∷ add_to_category major sub amount cs

pub add_inflow : Transaction → Flows → Flows
add_inflow t f = record f {
  inflow_by_source = add_entry (source_name t) (inflow_amount t) f.inflow_by_source;
  total_inflow = f.total_inflow + inflow_amount t;
  inflow_count = f.inflow_count + 1;
}

pub add_outflow : Transaction → Flows → Flows
add_outflow t f =
    let amount = pos_part (get_net_spending_amount t) in
    record f {
      outflow_by_category =
          add_to_category (resolved_major t) (subcategory_name t) amount f.outflow_by_category;
      total_outflow = f.total_outflow + amount;
      outflow_count = f.outflow_count + 1;
    }

-- one round of the loop
pub add_flow : Transaction → Flows → Flows
add_flow t f =
    if get_or t.pending false || is_internal t
    then f
    else if (is_income_category t || is_depository_inflow t) && ltb 0 (inflow_amount t)
    then add_inflow t f
    else if is_spending_transaction t && ltb_ℤ (pos 0) (get_net_spending_amount t)
    then add_outflow t f
    else f

pub flows_from : Flows → List Transaction → Flows
flows_from f [] = f
flows_from f (t ∷ ts) = flows_from (add_flow t f) ts

pub net_savings : Flows → ℤ
net_savings f = sub_ℕ f.total_inflow f.total_outflow

-- the amount of the hub in the middle, when there is income
pub hub_amount : Flows → ℕ
hub_amount f = max f.total_inflow f.total_outflow

-- the subcategories that are shown beside a category
pub shown_subcategories : CategoryFlow → Entries
shown_subcategories c = group_minor_subcategories (sort_by not_less c.subcategories) c.total
