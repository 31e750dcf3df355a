-- ===== src/NetWorth/Chart.antt =====
-- frontend/src/domain/DashboardCalculator.ts: where the net worth chart has room and dots.
use sumurai.Prelude.{
  ◌≢◌, map, All-map, ℕ, zero, suc, ◌≡◌, ◌≤◌, refl, Bool, Option, none, some, List, [], ◌∷◌, max,
  any, All, ◌==◌, arith, inl, inr, ◌⊎◌,
}
use sumurai.Prelude.Int.{ℤ, pos, ◌≤ℤ◌, ◌<ℤ◌, scale, +ℤ_parts, -ℤ_parts, scale_parts}
use sumurai.NetWorth.{
  Extent, widen, extent_from, padding_of, padded, axis_of, calculate_net_y_axis_domain, PointValue,
  number_value, value_or_zero,
}

abbrev pub has_index : ℕ → List ℕ → Bool
has_index i is = any (λ j. j == i) is

-- the value at an index, a missing one counting as 0
abbrev pub value_at : ℕ → List PointValue → Option ℤ
value_at i [] = none
value_at zero (v ∷ vs) = value_or_zero v
value_at (suc i) (v ∷ vs) = value_at i vs

-- The values at the index and before it are finite numbers, and not the same.
abbrev pub IsChangeAt : List PointValue → ℕ → Type 0
IsChangeAt series i =
    (k : ℕ) × (a : ℤ) × (b : ℤ) × (i ≡ suc k)
    × (value_at k series ≡ some a)
    × (value_at (suc k) series ≡ some b)
    × (a ≢ b)

-- a value within an extent
abbrev pub Within : Extent → Option ℤ → Type 0
Within e none = Unit {0}
Within e (some v) = (e.min ≤ℤ v) × (v ≤ℤ e.max)

abbrev Wider : Extent → Extent → Type 0
Wider e f = (f.min ≤ℤ e.min) × (e.max ≤ℤ f.max)

widen-Within : (o : Option Extent) (v : ℤ) → Within (widen o v) (some v)
unfolding widen
widen-Within none v = omega arith
widen-Within (some e) v = ground arith

widen-Wider : (e : Extent) (v : ℤ) → Wider e (widen (some e) v)
unfolding widen
widen-Wider e v = ground arith

-- an extent that has started is kept
kept :
    (e : Extent) (vs : List (Option ℤ))
    → (f : Extent) × (extent_from (some e) vs ≡ some f) × Wider e f × All (Within f) vs
unfolding extent_from
kept e [] = (e, refl, omega arith, tt)
kept e (none ∷ vs) = let (f, p, w, h) = kept e vs in (f, p, w, (tt, h))
kept e (some v ∷ vs) =
    let (f, p, w, h) = kept (widen (some e) v) vs in
    let g = widen-Wider e v in
    let b = widen-Within (some e) v in (f, p, omega (arith, w, g), (omega (arith, b, w), h))

extent_cases :
    (vs : List (Option ℤ))
    → (All (λ o. o ≡ none) vs × (extent_from none vs ≡ none))
      ⊎ ((f : Extent) × (extent_from none vs ≡ some f) × All (Within f) vs)
unfolding extent_from
extent_cases [] = inl (tt, refl)
extent_cases (none ∷ vs) = elim (extent_cases vs) [
  | inl (h, e) ↦ inl ((refl, h), e)
  | inr (f, e, h) ↦ inr (f, e, (tt, h))
]
extent_cases (some v ∷ vs) =
    let (f, p, w, h) = kept (widen none v) vs in
    let b = widen-Within none v in inr (f, p, (omega (arith, b, w), h))

padding_pos : (e : Extent) → 1 ≤ padding_of e
unfolding padding_of
padding_pos e = ground arith

-- a value strictly between the ends of an axis
abbrev pub Inside : ℤ × ℤ → Option ℤ → Type 0
Inside ends none = Unit {0}
Inside ends (some v) = (ends.0 <ℤ scale 100 v) × (scale 100 v <ℤ ends.1)

padded-Inside : (e : Extent) (o : Option ℤ) → Within e o → Inside (padded e) o
unfolding padded
padded-Inside e none h = tt
padded-Inside e (some v) h = omega (
  arith,
  padding_pos e,
  -ℤ_parts (scale 100 e.min) (pos (padding_of e)),
  +ℤ_parts (scale 100 e.max) (pos (padding_of e)),
  scale_parts 100 e.min,
  scale_parts 100 e.max,
  scale_parts 100 v,
)

-- There is an axis exactly when some value is finite, and then every finite value lies strictly between
-- its ends.
pub calculate_net_y_axis_domain_lem :
    (series : List PointValue)
    → let values = map number_value series in
      (All (λ o. o ≡ none) values × (calculate_net_y_axis_domain series ≡ none))
      ⊎ ((ends : ℤ × ℤ) × (calculate_net_y_axis_domain series ≡ some ends)
          × All (Inside ends) values)
unfolding calculate_net_y_axis_domain axis_of
calculate_net_y_axis_domain_lem series = elim (extent_cases (map number_value series)) [
  | inl (h, e) ↦ inl (h, rw e refl)
  | inr (f, e, h) ↦ inr (padded f, rw e refl, All-map (padded-Inside f) (map number_value series) h)
]
