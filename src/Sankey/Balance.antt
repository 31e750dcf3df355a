-- ===== src/Sankey/Balance.antt =====
-- frontend/src/domain/SankeyCalculator.ts: the flows into and out of each column of the diagram.
use sumurai.Prelude.{
  ℕ, ◌+◌, ◌≡◌, refl, Bool, true, false, not, List, [], ◌∷◌, ◌++◌, All, All-map, filter,
  if◌then◌else◌, arith, ◌∙◌,
}
use sumurai.Prelude.Int.{pos_part, neg_part}
use sumurai.Prelude.Text.{Text, lit, eq}
use sumurai.Prelude.Sorting.{insert_by, sort_by}
use sumurai.Types.{Transaction}
use sumurai.Sankey.{
  Entries, sum_entries, add_entry, not_less, is_minor, group_minor_subcategories, CategoryFlow,
  Flows, no_flows, add_to_category, add_inflow, add_outflow, add_flow, flows_from, net_savings,
  hub_amount, shown_subcategories,
}

pub sum_entries-add_entry :
    (k : Text) (n : ℕ) (es : Entries) → sum_entries (add_entry k n es) ≡ sum_entries es + n
unfolding add_entry sum_entries
sum_entries-add_entry k n [] = omega arith
sum_entries-add_entry k n ((l, m) ∷ es) = ground (arith, sum_entries-add_entry k n es)

sum_entries-append : (es fs : Entries) → sum_entries (es ++ fs) ≡ sum_entries es + sum_entries fs
unfolding sum_entries
sum_entries-append [] fs = omega arith
sum_entries-append ((k, n) ∷ es) fs = omega (arith, sum_entries-append es fs)

sum_entries-insert_by :
    (e : Text × ℕ) (es : Entries) → sum_entries (insert_by not_less e es) ≡ e.1 + sum_entries es
unfolding sum_entries insert_by
sum_entries-insert_by (k, n) [] = refl
sum_entries-insert_by (k, n) ((l, m) ∷ es) = ground (arith, sum_entries-insert_by (k, n) es)

pub sum_entries-sort_by : (es : Entries) → sum_entries (sort_by not_less es) ≡ sum_entries es
unfolding sum_entries sort_by
sum_entries-sort_by [] = refl
sum_entries-sort_by ((k, n) ∷ es) =
    omega (arith, sum_entries-insert_by (k, n) (sort_by not_less es), sum_entries-sort_by es)

sum_entries-filter :
    (p : Text × ℕ → Bool) (es : Entries)
    → sum_entries (filter (λ e. not (p e)) es) + sum_entries (filter p es) ≡ sum_entries es
unfolding sum_entries
sum_entries-filter p [] = omega arith
sum_entries-filter p ((k, n) ∷ es) = ground (arith, sum_entries-filter p es)

sum_entries_one : (k : Text) (n : ℕ) → sum_entries ((k, n) ∷ []) ≡ n
unfolding sum_entries
sum_entries_one k n = omega arith

regrouped :
    (subs : Entries) (total : ℕ)
    → sum_entries (
        sort_by not_less (
          filter (λ e. not (is_minor total e)) subs
          ++ (lit "Other", sum_entries (filter (is_minor total) subs)) ∷ []))
      ≡ sum_entries subs
regrouped subs total = omega (
  arith,
  sum_entries-sort_by (
      filter (λ e. not (is_minor total e)) subs
      ++ (lit "Other", sum_entries (filter (is_minor total) subs)) ∷ []),
  sum_entries-append (filter (λ e. not (is_minor total e)) subs)
      ((lit "Other", sum_entries (filter (is_minor total) subs)) ∷ []),
  sum_entries_one (lit "Other") (sum_entries (filter (is_minor total) subs)),
  sum_entries-filter (is_minor total) subs,
)

sum_entries-group_minor_subcategories :
    (subs : Entries) (total : ℕ)
    → sum_entries (group_minor_subcategories subs total) ≡ sum_entries subs
unfolding group_minor_subcategories
sum_entries-group_minor_subcategories subs total = ground (arith, regrouped subs total)

abbrev pub IsSplit : CategoryFlow → Type 0
IsSplit c = sum_entries c.subcategories ≡ c.total

abbrev pub sum_totals : List CategoryFlow → ℕ
sum_totals [] = 0
sum_totals (c ∷ cs) = c.total + sum_totals cs

-- What the accumulators have to do with each other.
abbrev pub IsConserved : Flows → Type 0
IsConserved f =
    (sum_entries f.inflow_by_source ≡ f.total_inflow)
    × (sum_totals f.outflow_by_category ≡ f.total_outflow)
    × All IsSplit f.outflow_by_category

sum_totals-add_to_category :
    (major sub : Text) (n : ℕ) (cs : List CategoryFlow)
    → sum_totals (add_to_category major sub n cs) ≡ sum_totals cs + n
unfolding add_to_category
sum_totals-add_to_category major sub n [] = omega arith
sum_totals-add_to_category major sub n (c ∷ cs) =
    ground (arith, sum_totals-add_to_category major sub n cs)

add_to_category-IsSplit :
    (major sub : Text) (n : ℕ) (cs : List CategoryFlow)
    → All IsSplit cs
    → All IsSplit (add_to_category major sub n cs)
unfolding add_to_category
add_to_category-IsSplit major sub n [] h = (sum_entries_one sub n, tt)
add_to_category-IsSplit major sub n (c ∷ cs) (h, hs) =
    elim (eq c.name major)
      as (λ b. All IsSplit (
        if b
        then record c { total = c.total + n; subcategories = add_entry sub n c.subcategories } ∷ cs
        else c ∷ add_to_category major sub n cs)) [
          | true ↦ (omega (arith, sum_entries-add_entry sub n c.subcategories), hs)
          | false ↦ (h, add_to_category-IsSplit major sub n cs hs)
        ]

add_inflow-IsConserved :
    (t : Transaction) (f : Flows) → IsConserved f → IsConserved (add_inflow t f)
unfolding add_inflow
add_inflow-IsConserved t f (h, k, l) =
    (omega (arith, sum_entries-add_entry _ _ f.inflow_by_source), k, l)

add_outflow-IsConserved :
    (t : Transaction) (f : Flows) → IsConserved f → IsConserved (add_outflow t f)
unfolding add_outflow
add_outflow-IsConserved t f (h, k, l) = (
  h,
  omega (arith, sum_totals-add_to_category _ _ _ f.outflow_by_category),
  add_to_category-IsSplit _ _ _ f.outflow_by_category l,
)

if-IsConserved :
    (b : Bool) (f g : Flows) → IsConserved f → IsConserved g → IsConserved (if b then f else g)
if-IsConserved true f g h k = h
if-IsConserved false f g h k = k

add_flow-IsConserved : (t : Transaction) (f : Flows) → IsConserved f → IsConserved (add_flow t f)
unfolding add_flow
add_flow-IsConserved t f h = if-IsConserved _ _ _ h (
    if-IsConserved _ _ _ (add_inflow-IsConserved t f h)
      (if-IsConserved _ _ _ (add_outflow-IsConserved t f h) h))

flows_from-IsConserved :
    (f : Flows) (ts : List Transaction) → IsConserved f → IsConserved (flows_from f ts)
unfolding flows_from
flows_from-IsConserved f [] h = h
flows_from-IsConserved f (t ∷ ts) h =
    flows_from-IsConserved (add_flow t f) ts (add_flow-IsConserved t f h)

no_flows-IsConserved : IsConserved no_flows
unfolding sum_entries
no_flows-IsConserved = (refl, refl, tt)

shown_split : (c : CategoryFlow) → IsSplit c → sum_entries (shown_subcategories c) ≡ c.total
unfolding shown_subcategories
shown_split c h =
    sum_entries-group_minor_subcategories (sort_by not_less c.subcategories) c.total
    ∙ sum_entries-sort_by c.subcategories
    ∙ h

-- No cent is lost in the diagram: the sources and a deficit together are the amount of the hub, so are
-- the categories and the savings, and the subcategories that are shown beside a category, the clubbed
-- ones included, are its total.
pub flows_balance :
    (ts : List Transaction)
    → let f = flows_from no_flows ts in
      (sum_entries f.inflow_by_source + neg_part (net_savings f) ≡ hub_amount f)
      × (sum_totals f.outflow_by_category + pos_part (net_savings f) ≡ hub_amount f)
      × All (λ c. sum_entries (shown_subcategories c) ≡ c.total) f.outflow_by_category
unfolding net_savings hub_amount
flows_balance ts =
    let f = flows_from no_flows ts in
    let (h, k, l) = flows_from-IsConserved no_flows ts no_flows-IsConserved in
    (ground (arith, h), ground (arith, k), All-map shown_split f.outflow_by_category l)
