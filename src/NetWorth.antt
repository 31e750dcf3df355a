-- ===== src/NetWorth.antt =====
-- frontend/src/domain/DashboardCalculator.ts: the axis and the dots of the net worth chart. A value is
-- in cents; the ends of the axis are in hundredths of a cent.
pub mod Chart
pub mod Series
mod Tests
use sumurai.Prelude.{
  ℕ, zero, suc, ◌+◌, ◌-◌, ◌*◌, ◌/◌, Bool, true, false, not, ◌&&◌, Option, none, some, List, [], ◌∷◌,
  ◌++◌, length, max, map, if◌then◌else◌, ltb, ◌==◌, any,
}
use sumurai.Prelude.Int.{ℤ, pos, negsuc, pos_part, neg_part, ltb_ℤ, ◌+ℤ◌, ◌-ℤ◌, scale}

-- The value of a point: a number, one that is not finite, or none where it is undefined.
pub data PointValue : Type 0 where
  finite : ℤ → PointValue
  not_finite missing : PointValue

-- `Number(point?.value)`, `none` where it is not finite
pub number_value : PointValue → Option ℤ
number_value (finite v) = some v
number_value not_finite = none
number_value missing = none

-- `Number(point?.value ?? 0)`
unfoldable pub value_or_zero : PointValue → Option ℤ
value_or_zero (finite v) = some v
value_or_zero not_finite = none
value_or_zero missing = some (pos 0)

-- the least and the largest finite value, of the ones so far
pub record Extent : Type 0 where
  pub min : ℤ
  pub max : ℤ

pub widen : Option Extent → ℤ → Extent
widen none v = record { min = v; max = v }
widen (some e) v = record {
  min = if ltb_ℤ v e.min then v else e.min;
  max = if ltb_ℤ e.max v then v else e.max;
}

pub extent_from : Option Extent → List (Option ℤ) → Option Extent
extent_from e [] = e
extent_from e (none ∷ vs) = extent_from e vs
extent_from e (some v ∷ vs) = extent_from (some (widen e v)) vs

-- the larger of 500 and 10 percent of the value, or 8 percent of the span
pub padding_of : Extent → ℕ
padding_of e =
    let span = e.max -ℤ e.min in
    if pos_part span == 0
    then max (10 * (pos_part e.max + neg_part e.max)) 5_000_000
    else max (8 * pos_part span) 5_000_000

pub padded : Extent → ℤ × ℤ
padded e = (scale 100 e.min -ℤ pos (padding_of e), scale 100 e.max +ℤ pos (padding_of e))

pub axis_of : Option Extent → Option (ℤ × ℤ)
axis_of none = none
axis_of (some e) = some (padded e)

pub calculate_net_y_axis_domain : List PointValue → Option (ℤ × ℤ)
calculate_net_y_axis_domain series = axis_of (extent_from none (map number_value series))

unfoldable pub same_value : ℤ → ℤ → Bool
same_value a b = (pos_part a == pos_part b) && (neg_part a == neg_part b)

unfoldable pub is_change : Option ℤ → Option ℤ → Bool
is_change (some prev) (some curr) = not (same_value prev curr)
is_change _ _ = false

-- the places, from `i` on, where the value differs from the one before
unfoldable pub changes_from : ℕ → Option ℤ → List (Option ℤ) → List ℕ
changes_from i prev [] = []
changes_from i prev (v ∷ vs) =
    let rest = changes_from (i + 1) v vs in if is_change prev v then i ∷ rest else rest

unfoldable pub change_indices : List (Option ℤ) → List ℕ
change_indices [] = []
change_indices (v ∷ vs) = changes_from 1 v vs

-- every item after `k` others, and then each that comes `stride` places later
unfoldable pub every : ℕ → ℕ → List ℕ → List ℕ
every stride k [] = []
every stride zero (i ∷ is) = i ∷ every stride (stride - 1) is
every stride (suc k) (i ∷ is) = every stride k is

unfoldable pub last_index : ℕ → List ℕ → ℕ
last_index i [] = i
last_index i (j ∷ js) = last_index j js

-- `Set.add`
unfoldable pub add_index : ℕ → List ℕ → List ℕ
add_index i is = if any (λ j. j == i) is then is else is ++ i ∷ []

unfoldable pub dot_stride : ℕ → ℕ
dot_stride count = max 1 ((count + 29) / 30)

unfoldable pub dots_of : List ℕ → List ℕ
dots_of [] = []
dots_of (i ∷ is) = add_index (last_index i is) (every (dot_stride (length (i ∷ is))) 0 (i ∷ is))

unfoldable pub calculate_net_dot_indices : List PointValue → List ℕ
calculate_net_dot_indices series = dots_of (change_indices (map value_or_zero series))
