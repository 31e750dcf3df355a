-- ===== src/Donut.antt =====
-- frontend/src/features/analytics/adapters/chartData.ts: the spending by category of the dashboard.
-- `to_number` stands for `Number(text)` in cents, with `none` where it is not finite.
pub mod Sums
mod Tests
use sumurai.Prelude.{Option, none, some, List, [], ◌∷◌, if◌then◌else◌, or_else, get_or, ltb}
use sumurai.Prelude.Int.{ℤ, pos, negsuc}
use sumurai.Prelude.Text.{Text, lit, is_empty}
use sumurai.Prelude.Sorting.{sort_by}
use sumurai.Categories.{resolve_major_category}
use sumurai.Accounts.{Value, number, text, other_value}
use sumurai.Sankey.{Entries, add_entry, not_less}

-- A field that is null or undefined is `none`.
pub record CategoryDatum : Type 0 where
  pub category : Option Text
  pub name : Option Text
  pub amount : Option Value
  pub value : Option Value

-- `(c.category ?? c.name ?? 'Unknown') || 'Unknown'`
pub raw_name : CategoryDatum → Text
raw_name c =
    let name = get_or (or_else c.category c.name) (lit "Unknown") in
    if is_empty name then lit "Unknown" else name

module _ (to_number : Text → Option ℤ) where
  pub number_of : Value → Option ℤ
  number_of (number n) = some n
  number_of (text s) = to_number s
  number_of other_value = none

  -- `c.amount ?? c.value ?? 0` as a number
  pub raw_value : CategoryDatum → Option ℤ
  raw_value c = number_of (get_or (or_else c.amount c.value) (number (pos 0)))

  pub add_value : Text → Option ℤ → Entries → Entries
  add_value name (some (pos n)) totals =
      if ltb 0 n then add_entry (resolve_major_category [] (some name)) n totals else totals
  add_value name (some (negsuc n)) totals = totals
  add_value name none totals = totals

  pub totals_from : Entries → List CategoryDatum → Entries
  totals_from totals [] = totals
  totals_from totals (c ∷ cs) = totals_from (add_value (raw_name c) (raw_value c) totals) cs

  pub categories_to_donut : List CategoryDatum → Entries
  categories_to_donut cs = sort_by not_less (totals_from [] cs)
