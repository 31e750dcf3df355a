-- ===== src/Donut/Tests.antt =====
-- Runs of the donut.
use sumurai.Prelude.{◌≡◌, none, some, List, [], ◌∷◌, Option}
use sumurai.Prelude.Int.{ℤ, pos}
use sumurai.Prelude.Text.{Text, lit}
use sumurai.Prelude.Sets.{NoDup}
use sumurai.Prelude.Sorting.{IsSorted}
use sumurai.Accounts.{number, text}
use sumurai.Sankey.{sum_entries, not_less}
use sumurai.Donut.{CategoryDatum, categories_to_donut}
use sumurai.Donut.Sums.{sum_counted, under, counted_under, slice_names, categories_to_donut_lem}

abbrev no_number : Text → Option ℤ
no_number s = none

abbrev data_items : List CategoryDatum
data_items =
    record {
      category = some (lit "groceries");
      name = none;
      amount = some (number (pos 500));
      value = none;
    }
    ∷ record {
      category = none;
      name = some (lit "Travel");
      amount = some (text (lit "x"));
      value = none;
    }
    ∷ []

categories_to_donut_lem_example :
    NoDup (slice_names no_number (categories_to_donut no_number data_items))
    × (under no_number (lit "Groceries") (categories_to_donut no_number data_items)
        ≡ counted_under no_number (lit "Groceries") data_items)
    × (sum_entries (categories_to_donut no_number data_items) ≡ sum_counted no_number data_items)
    × IsSorted not_less (categories_to_donut no_number data_items)
categories_to_donut_lem_example = categories_to_donut_lem no_number data_items (lit "Groceries")
