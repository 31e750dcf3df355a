-- ===== src/Sankey/Diagram.antt =====
-- frontend/src/domain/SankeyCalculator.ts: the nodes and links of the diagram. `none` stands for the
-- exception of a link to a node that is not there. A percentage is in tenths.
pub mod Links
use sumurai.Prelude.{
  ℕ, zero, suc, ◌+◌, ◌*◌, ◌/◌, Bool, true, false, not, ◌||◌, Option, none, some, List, [], ◌∷◌,
  ◌++◌, length, if◌then◌else◌, ltb, leb, ◌==◌, ◌>>=◌,
}
use mathlib.Core.Option
use sumurai.Prelude.Int.{ℤ, pos, pos_part, neg_part, scale, floor_div, ◌+ℤ◌}
use sumurai.Prelude.Text.{Text, lit, eq}
use sumurai.Prelude.Sorting.{sort_by}
use sumurai.Types.{Transaction}
use sumurai.Categories.{format_category_name}
use sumurai.Sankey.{
  Entries, CategoryFlow, Flows, no_flows, flows_from, net_savings, hub_amount, shown_subcategories,
}
use sumurai.Sankey.Colors.{get_category_color}

pub data NodeKind : Type 0 where
  inflow outflow hub savings deficit subcategory : NodeKind

pub record SankeyNode : Type 0 where
  pub id : Text
  pub name : Text
  pub formatted_name : Text
  pub amount : ℕ
  pub color : Text
  pub category_type : NodeKind
  pub percentage : Option ℤ

pub record SankeyLink : Type 0 where
  pub source : ℕ
  pub target : ℕ
  pub value : ℕ
  pub source_id : Text
  pub target_id : Text
  pub source_name : Text
  pub target_name : Text
  pub color : Text

pub record Diagram : Type 0 where
  pub nodes : List SankeyNode
  pub links : List SankeyLink

-- `nodeIndexMap`, which holds the place of every node
pub later : Option ℕ → Option ℕ
later none = none
later (some i) = some (suc i)

pub node_index : Text → List SankeyNode → Option ℕ
node_index i [] = none
node_index i (n ∷ ns) = let rest = node_index i ns in if eq n.id i then some 0 else later rest

pub node_at : ℕ → List SankeyNode → Option SankeyNode
node_at i [] = none
node_at zero (n ∷ ns) = some n
node_at (suc i) (n ∷ ns) = node_at i ns

pub place_node : Option ℕ → SankeyNode → Diagram → ℕ × Diagram
place_node (some i) n d = (i, d)
place_node none n d = (length d.nodes, record d { nodes = d.nodes ++ n ∷ [] })

pub new_node : Text → Text → ℕ → Text → NodeKind → Option ℤ → SankeyNode
new_node i name amount color kind percentage = record {
  id = i;
  name = name;
  formatted_name = format_category_name (some name);
  amount = amount;
  color = color;
  category_type = kind;
  percentage = percentage;
}

pub add_node : SankeyNode → Diagram → ℕ × Diagram
add_node n d = place_node (node_index n.id d.nodes) n d

pub new_link : ℕ → ℕ → ℕ → Text → SankeyNode → SankeyNode → SankeyLink
new_link i j value color a b = record {
  source = i;
  target = j;
  value = value;
  source_id = a.id;
  target_id = b.id;
  source_name = a.name;
  target_name = b.name;
  color = color;
}

pub add_link : ℕ → ℕ → ℕ → Text → Diagram → Option Diagram
add_link i j zero color d = some d
add_link i j (suc v) color d = do
  a ← node_at i d.nodes
  b ← node_at j d.nodes
  some (record d { links = d.links ++ new_link i j (suc v) color a b ∷ [] })

-- `total > 0 ? Math.round((amount / total) * 100) : 0`, in tenths
pub percent_of : ℕ → ℕ → ℤ
percent_of amount total =
    if ltb 0 total then pos (10 * ((200 * amount + total) / (2 * total))) else pos 0

-- `savingsRate`: in tenths, rounded
pub savings_rate : Flows → ℤ
savings_rate f =
    if ltb 0 f.total_inflow
    then floor_div (scale 2000 (net_savings f) +ℤ pos f.total_inflow) (2 * f.total_inflow)
    else pos 0

-- a node, and its link to another in the color `of` the node
pub add_into : ℕ → (SankeyNode → Text) → SankeyNode → Diagram → Option Diagram
add_into to of n d = do
  let (i, d1) = add_node n d
  a ← node_at i d1.nodes
  add_link i to n.amount (of a) d1

-- a node with its place, and its link from another
pub add_from : ℕ → (SankeyNode → Text) → SankeyNode → Diagram → Option (ℕ × Diagram)
add_from from of n d = do
  let (i, d1) = add_node n d
  a ← node_at i d1.nodes
  d2 ← add_link from i n.amount (of a) d1
  some (i, d2)

pub source_node : ℕ → Text → ℕ → SankeyNode
source_node total name amount =
    new_node (lit "inflow_" ++ name) name amount (get_category_color name 0) inflow
      (some (percent_of amount total))

pub deficit_node : ℕ → SankeyNode
deficit_node amount =
    new_node (lit "inflow_from_savings") (lit "From Savings") amount (lit "#f59e0b") deficit none

pub subcategory_node : Text → Text → ℕ → Text → ℕ → SankeyNode
subcategory_node color category total name amount =
    new_node (lit "sub_" ++ category ++ lit "_" ++ name) name amount color subcategory
      (some (percent_of amount total))

pub category_node : ℕ → CategoryFlow → SankeyNode
category_node total c =
    new_node (lit "cat_" ++ c.name) c.name c.total (get_category_color c.name 0) outflow
      (some (percent_of c.total total))

pub savings_node : Flows → SankeyNode
savings_node f =
    new_node (lit "savings_net") (lit "Net Savings") (pos_part (net_savings f)) (lit "#10b981")
      savings (some (savings_rate f))

pub income_hub : Flows → SankeyNode
income_hub f =
    new_node (lit "hub_total_income") (lit "Total Income") (hub_amount f) (lit "#0d9488") hub none

pub spending_hub : Flows → SankeyNode
spending_hub f =
    new_node (lit "hub_total_spending") (lit "Total Spending") f.total_outflow (lit "#64748b") hub
      none

pub add_sources : ℕ → ℕ → Entries → Diagram → Option Diagram
add_sources to total [] d = some d
add_sources to total ((name, amount) ∷ es) d = do
  d1 ← add_into to (λ a. a.color) (source_node total name amount) d
  add_sources to total es d1

pub add_deficit : ℕ → Flows → Diagram → Option Diagram
add_deficit to f d =
    let amount = neg_part (net_savings f) in
    if amount == 0 then some d else add_into to (λ a. lit "#f59e0b") (deficit_node amount) d

-- the subcategories in the color of their category
pub add_subcategories : ℕ → Text → Text → ℕ → Entries → Diagram → Option Diagram
add_subcategories from color category total [] d = some d
add_subcategories from color category total ((name, amount) ∷ es) d = do
  placed ← add_from from (λ a. color) (subcategory_node color category total name amount) d
  add_subcategories from color category total es placed.1

pub subcategories_if : Bool → ℕ → CategoryFlow → Diagram → Option Diagram
subcategories_if false from c d = some d
subcategories_if true from c d = do
  a ← node_at from d.nodes
  add_subcategories from a.color c.name c.total (shown_subcategories c) d

pub add_categories : Bool → ℕ → ℕ → List CategoryFlow → Diagram → Option Diagram
add_categories with_subs from total [] d = some d
add_categories with_subs from total (c ∷ cs) d = do
  placed ← add_from from (λ a. a.color) (category_node total c) d
  d1 ← subcategories_if with_subs placed.0 c placed.1
  add_categories with_subs from total cs d1

pub add_savings : ℕ → Flows → Diagram → Option Diagram
add_savings from f d =
    let amount = pos_part (net_savings f) in
    if amount == 0
    then some d
    else add_from from (λ a. lit "#10b981") (savings_node f) d >>= λ placed. some placed.1

abbrev pub empty_diagram : Diagram
empty_diagram = record { nodes = []; links = [] }

pub larger_first : CategoryFlow → CategoryFlow → Bool
larger_first a b = leb b.total a.total

pub sorted_categories : Flows → List CategoryFlow
sorted_categories f = sort_by larger_first f.outflow_by_category

pub income_diagram : Bool → Flows → Option Diagram
income_diagram with_subs f = do
  let (to, d0) = add_node (income_hub f) empty_diagram
  d1 ← add_sources to f.total_inflow f.inflow_by_source d0
  d2 ← add_deficit to f d1
  d3 ← add_categories with_subs to f.total_outflow (sorted_categories f) d2
  add_savings to f d3

pub spending_diagram : Bool → Flows → Option Diagram
spending_diagram with_subs f = do
  let (from, d0) = add_node (spending_hub f) empty_diagram
  add_categories with_subs from f.total_outflow (sorted_categories f) d0

pub diagram_of : Bool → Flows → Option Diagram
diagram_of with_subs f =
    if f.total_inflow + f.total_outflow == 0
    then some empty_diagram
    else if ltb 0 f.total_inflow
    then income_diagram with_subs f
    else spending_diagram with_subs f

pub record TopExpense : Type 0 where
  pub name : Text
  pub amount : ℕ
  pub percentage : ℤ

-- the first of the largest categories
pub top_expense_from : Option TopExpense → ℕ → ℕ → List CategoryFlow → Option TopExpense
top_expense_from top max_expense total [] = top
top_expense_from top max_expense total (c ∷ cs) =
    if ltb max_expense c.total
    then top_expense_from
        (some (record { name = c.name; amount = c.total; percentage = percent_of c.total total }))
        c.total total cs
    else top_expense_from top max_expense total cs

pub record SankeyStats : Type 0 where
  pub total_inflow : ℕ
  pub total_outflow : ℕ
  pub net_savings : ℤ
  pub savings_rate : ℤ
  pub top_expense_category : Option TopExpense
  pub inflow_count : ℕ
  pub outflow_count : ℕ

pub stats_of : Flows → SankeyStats
stats_of f = record {
  total_inflow = f.total_inflow;
  total_outflow = f.total_outflow;
  net_savings = net_savings f;
  savings_rate = savings_rate f;
  top_expense_category = top_expense_from none 0 f.total_outflow f.outflow_by_category;
  inflow_count = f.inflow_count;
  outflow_count = f.outflow_count;
}

pub record SankeyCalculationResult : Type 0 where
  pub diagram : Diagram
  pub stats : SankeyStats
  pub has_data : Bool
  pub has_income : Bool

pub result_of : Flows → Diagram → SankeyCalculationResult
result_of f d = record {
  diagram = d;
  stats = stats_of f;
  has_data = ltb 0 f.total_inflow || ltb 0 f.total_outflow;
  has_income = ltb 0 f.total_inflow;
}

pub compute_sankey_data : List Transaction → Bool → Option SankeyCalculationResult
compute_sankey_data ts with_subs =
    let f = flows_from no_flows ts in Option.map (result_of f) (diagram_of with_subs f)
