-- ===== src/Donut/Sums.antt =====
-- frontend/src/features/analytics/adapters/chartData.ts: what the slices of the donut add up to.
use sumurai.Prelude.{
  ℕ, ◌+◌, ◌≡◌, refl, Bool, true, false, ◌||◌, ◌∙◌, Bool-cases, inl, inr, if◌then◌else◌, map, ltb,
  Option, none, some, List, [], ◌∷◌, arith,
}
use sumurai.Prelude.Int.{ℤ, pos, negsuc, pos_part}
use sumurai.Prelude.Text.{Text, eq, contains}
use sumurai.Prelude.Sets.{NoDup, eq_sym, eq-left}
use sumurai.Prelude.Sorting.{IsSorted, sort_by-IsSorted, sort_by, insert_by}
use sumurai.Categories.{resolve_major_category}
use sumurai.Sankey.{Entries, sum_entries, not_less, add_entry}
use sumurai.Sankey.Balance.{sum_entries-add_entry, sum_entries-sort_by}
use sumurai.Donut.{CategoryDatum, raw_name, raw_value, add_value, totals_from, categories_to_donut}

module _ (to_number : Text → Option ℤ) where
  -- what an item counts: its amount above zero
  abbrev pub counted : CategoryDatum → ℕ
  counted c = elim (raw_value to_number c) [ some n ↦ pos_part n | none ↦ 0 ]

  abbrev pub sum_counted : List CategoryDatum → ℕ
  sum_counted [] = 0
  sum_counted (c ∷ cs) = counted c + sum_counted cs

  add_value-sum :
      (name : Text) (v : Option ℤ) (totals : Entries)
      → sum_entries (add_value to_number name v totals)
        ≡ sum_entries totals + (elim v [ some n ↦ pos_part n | none ↦ 0 ])
  unfolding add_value
  add_value-sum name none totals = omega arith
  add_value-sum name (some (negsuc n)) totals = omega arith
  add_value-sum name (some (pos n)) totals =
      ground (arith, sum_entries-add_entry (resolve_major_category [] (some name)) n totals)

  totals_from-sum :
      (totals : Entries) (cs : List CategoryDatum)
      → sum_entries (totals_from to_number totals cs) ≡ sum_entries totals + sum_counted cs
  unfolding totals_from
  totals_from-sum totals [] = omega arith
  totals_from-sum totals (c ∷ cs) = omega (
    arith,
    totals_from-sum (add_value to_number (raw_name c) (raw_value to_number c) totals) cs,
    add_value-sum (raw_name c) (raw_value to_number c) totals,
  )

  -- what a slice of the name adds up to
  abbrev pub under : Text → Entries → ℕ
  under z [] = 0
  under z ((k, n) ∷ es) = (if eq k z then n else 0) + under z es

  -- what the items of the category count
  abbrev pub counted_under : Text → List CategoryDatum → ℕ
  counted_under z [] = 0
  counted_under z (c ∷ cs) =
      (if eq (resolve_major_category [] (some (raw_name c))) z then counted c else 0)
      + counted_under z cs

  abbrev pub slice_names : Entries → List Text
  slice_names es = map (λ e. e.0) es

  under-add_entry :
      (z key : Text) (n : ℕ) (es : Entries)
      → under z (add_entry key n es) ≡ under z es + (if eq key z then n else 0)
  unfolding add_entry
  under-add_entry z key n [] = ground arith
  under-add_entry z key n ((k, m) ∷ es) =
      ground (arith, under-add_entry z key n es, eq-left k key z)

  add_value-under :
      (z name : Text) (v : Option ℤ) (totals : Entries)
      → under z (add_value to_number name v totals)
        ≡ under z totals
          + (if eq (resolve_major_category [] (some name)) z
              then elim v [ some n ↦ pos_part n | none ↦ 0 ]
              else 0)
  unfolding add_value
  add_value-under z name none totals = ground arith
  add_value-under z name (some (negsuc n)) totals = ground arith
  add_value-under z name (some (pos n)) totals =
      ground (arith, under-add_entry z (resolve_major_category [] (some name)) n totals)

  totals_from-under :
      (z : Text) (totals : Entries) (cs : List CategoryDatum)
      → under z (totals_from to_number totals cs) ≡ under z totals + counted_under z cs
  unfolding totals_from
  totals_from-under z totals [] = omega arith
  totals_from-under z totals (c ∷ cs) = omega (
    arith,
    totals_from-under z (add_value to_number (raw_name c) (raw_value to_number c) totals) cs,
    add_value-under z (raw_name c) (raw_value to_number c) totals,
  )

  slice_names-add_entry :
      (z key : Text) (n : ℕ) (es : Entries)
      → contains (slice_names (add_entry key n es)) z ≡ (contains (slice_names es) z || eq key z)
  unfolding add_entry
  slice_names-add_entry z key n [] = ground arith
  slice_names-add_entry z key n ((k, m) ∷ es) =
      ground (arith, slice_names-add_entry z key n es, eq-left k key z)

  add_entry-NoDup :
      (key : Text) (n : ℕ) (es : Entries)
      → NoDup (slice_names es)
      → NoDup (slice_names (add_entry key n es))
  unfolding add_entry
  add_entry-NoDup key n [] h = (refl, tt)
  add_entry-NoDup key n ((k, m) ∷ es) (h, hs) = elim (Bool-cases (eq k key)) [
    | inl e ↦ rw e (h, hs)
    | inr e ↦ rw e (
      ground (arith, slice_names-add_entry k key n es, eq_sym k key),
      add_entry-NoDup key n es hs,
    )
  ]

  if-NoDup :
      (b : Bool) (xs ys : Entries)
      → NoDup (slice_names xs)
      → NoDup (slice_names ys)
      → NoDup (slice_names (if b then xs else ys))
  if-NoDup true xs ys h k = h
  if-NoDup false xs ys h k = k

  add_value-NoDup :
      (name : Text) (v : Option ℤ) (totals : Entries)
      → NoDup (slice_names totals)
      → NoDup (slice_names (add_value to_number name v totals))
  unfolding add_value
  add_value-NoDup name none totals h = h
  add_value-NoDup name (some (negsuc n)) totals h = h
  add_value-NoDup name (some (pos n)) totals h =
      if-NoDup (ltb 0 n) _ totals
        (add_entry-NoDup (resolve_major_category [] (some name)) n totals h) h

  totals_from-NoDup :
      (totals : Entries) (cs : List CategoryDatum)
      → NoDup (slice_names totals)
      → NoDup (slice_names (totals_from to_number totals cs))
  unfolding totals_from
  totals_from-NoDup totals [] h = h
  totals_from-NoDup totals (c ∷ cs) h =
      totals_from-NoDup (add_value to_number (raw_name c) (raw_value to_number c) totals) cs
        (add_value-NoDup (raw_name c) (raw_value to_number c) totals h)

  insert_by-names :
      (z : Text) (e : Text × ℕ) (es : Entries)
      → (contains (slice_names (insert_by not_less e es)) z
          ≡ (eq e.0 z || contains (slice_names es) z))
        × (under z (insert_by not_less e es) ≡ (if eq e.0 z then e.1 else 0) + under z es)
  unfolding insert_by
  insert_by-names z e [] = ground arith
  insert_by-names z e (f ∷ es) = ground (arith, insert_by-names z e es)

  insert_by-NoDup :
      (e : Text × ℕ) (es : Entries)
      → contains (slice_names es) e.0 ≡ false
      → NoDup (slice_names es)
      → NoDup (slice_names (insert_by not_less e es))
  unfolding insert_by
  insert_by-NoDup e [] h k = (refl, tt)
  insert_by-NoDup e (f ∷ es) h (k, ks) =
      if-NoDup (not_less e f) (e ∷ f ∷ es) (f ∷ insert_by not_less e es) (h, (k, ks))
        (
          ground (arith, insert_by-names f.0 e es, eq_sym e.0 f.0),
          insert_by-NoDup e es (ground arith) ks,
        )

  sort_by-names :
      (z : Text) (es : Entries)
      → (contains (slice_names (sort_by not_less es)) z ≡ contains (slice_names es) z)
        × (under z (sort_by not_less es) ≡ under z es)
  unfolding sort_by
  sort_by-names z [] = (refl, refl)
  sort_by-names z (e ∷ es) =
      ground (arith, sort_by-names z es, insert_by-names z e (sort_by not_less es))

  sort_by-NoDup :
      (es : Entries) → NoDup (slice_names es) → NoDup (slice_names (sort_by not_less es))
  unfolding sort_by
  sort_by-NoDup [] h = h
  sort_by-NoDup (e ∷ es) (h, hs) =
      insert_by-NoDup e (sort_by not_less es) ((sort_by-names e.0 es).0 ∙ h) (sort_by-NoDup es hs)

  not_less_total : (a b : Text × ℕ) → not_less a b ≡ false → not_less b a ≡ true
  unfolding not_less
  not_less_total a b h = ground arith

  empty_sum : sum_entries [] ≡ 0
  unfolding sum_entries
  empty_sum = refl

  -- Each category has one slice at most, which adds up what its items count: their amounts above zero.
  -- All slices together add up to all of them, and the largest slice comes first.
  pub categories_to_donut_lem :
      (cs : List CategoryDatum) (z : Text)
      → NoDup (slice_names (categories_to_donut to_number cs))
        × (under z (categories_to_donut to_number cs) ≡ counted_under z cs)
        × (sum_entries (categories_to_donut to_number cs) ≡ sum_counted cs)
        × IsSorted not_less (categories_to_donut to_number cs)
  unfolding categories_to_donut
  categories_to_donut_lem cs z = (
    sort_by-NoDup (totals_from to_number [] cs) (totals_from-NoDup [] cs tt),
    omega (arith, sort_by-names z (totals_from to_number [] cs), totals_from-under z [] cs),
    omega (
      arith,
      sum_entries-sort_by (totals_from to_number [] cs),
      totals_from-sum [] cs,
      empty_sum,
    ),
    sort_by-IsSorted not_less not_less_total (totals_from to_number [] cs),
  )
