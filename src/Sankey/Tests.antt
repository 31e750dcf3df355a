-- ===== src/Sankey/Tests.antt =====
-- Runs of the cash flows.
use sumurai.Prelude.{◌≡◌, refl, ◌+◌, All, [], ◌∷◌, true, some}
use sumurai.Prelude.Int.{pos_part, neg_part}
use sumurai.Prelude.Text.{lit}
use sumurai.Prelude.Sorting.{sort_by, insert_by}
use sumurai.Samples.{transactions}
use sumurai.Sankey.{
  sum_entries, not_less, is_minor, group_minor_subcategories, Entries, no_flows, flows_from,
  net_savings, hub_amount, shown_subcategories,
}
use sumurai.Sankey.Balance.{sum_totals, flows_balance}
use sumurai.Sankey.Diagram.{SankeyCalculationResult, compute_sankey_data}
use sumurai.Sankey.Diagram.Links.{IsDrawn, compute_sankey_data_total}

flows_balance_example :
    (sum_entries (flows_from no_flows transactions).inflow_by_source
        + neg_part (net_savings (flows_from no_flows transactions))
      ≡ hub_amount (flows_from no_flows transactions))
    × (sum_totals (flows_from no_flows transactions).outflow_by_category
          + pos_part (net_savings (flows_from no_flows transactions))
        ≡ hub_amount (flows_from no_flows transactions))
    × All
        (λ c. sum_entries (shown_subcategories c) ≡ c.total)
        (flows_from no_flows transactions).outflow_by_category
flows_balance_example = flows_balance transactions

abbrev shops : Entries
shops = (lit "Books", 50_000) ∷ (lit "Toys", 1000) ∷ (lit "Shoes", 9000) ∷ (lit "Pens", 500) ∷ []

shops_run :
    group_minor_subcategories shops 60_500
    ≡ (lit "Books", 50_000) ∷ (lit "Shoes", 9000) ∷ (lit "Other", 1500) ∷ []
unfolding sum_entries not_less is_minor group_minor_subcategories sort_by insert_by
shops_run = refl

compute_sankey_data_total_example :
    (r : SankeyCalculationResult) × (compute_sankey_data transactions true ≡ some r)
    × IsDrawn r.diagram
compute_sankey_data_total_example = compute_sankey_data_total transactions true
