-- ===== src/Filters/Order.antt =====
-- frontend/src/domain/TransactionFilter.ts: what passes the filters, and in which order.
use sumurai.Prelude.{
  ◌≡◌, refl, ap, ◌∙◌, Bool, true, false, ◌&&◌, ◌||◌, Option, none, some, List, [], ◌∷◌, filter,
  if◌then◌else◌, get_or, arith, sym, leb, length,
}
use mathlib.Core.List.{Perm}
use mathlib.Core.List.Perm
use sumurai.Prelude.Text.{
  Text, lit, eq, includes, starts_with, or_text, is_empty, to_lower_case, trim, compare_text,
  le_text,
}
use sumurai.Types.{Transaction}
use sumurai.Budgets.{primary_text, detailed_text, same_name}
use sumurai.Categories.{format_category_name}
use sumurai.Budgets.Own.{same_name_refl}
use sumurai.Filters.{
  Period, FilterCriteria, matches_search, matches_pending, to_date_only_key, filter_by_search,
  fits_category, filter_by_category, fits_subcategory, filter_by_subcategory, in_period,
  filter_by_date_range, not_before, insert_by_date, sort_by_date, step_text, step_period,
  filter_transactions,
}

filter-filter :
    {A : Type 0} (p q : A → Bool) (xs : List A)
    → filter p (filter q xs) ≡ filter (λ x. q x && p x) xs
filter-filter p q [] = refl
filter-filter p q (x ∷ xs) = ground (arith, filter-filter p q xs)

filter-and_true :
    {A : Type 0} (q : A → Bool) (xs : List A) → filter q xs ≡ filter (λ x. q x && true) xs
filter-and_true q [] = refl
filter-and_true q (x ∷ xs) = ground (arith, filter-and_true q xs)

filter-true : {A : Type 0} (xs : List A) → xs ≡ filter (λ x. true) xs
filter-true [] = refl
filter-true (x ∷ xs) = ap (λ l. x ∷ l) (filter-true xs)

-- Keeping all items when b holds, and the ones with p otherwise.
filter_unless :
    {A : Type 0} (b : Bool) (p q : A → Bool) (xs : List A)
    → (if b then filter q xs else filter p (filter q xs)) ≡ filter (λ x. q x && (b || p x)) xs
filter_unless true p q xs = filter-and_true q xs
filter_unless false p q xs = filter-filter p q xs

-- Whether a transaction meets every criterion that is given.
abbrev pub passes_search : Text → Transaction → Bool
passes_search search t =
    is_empty (to_lower_case (trim search)) || matches_search (to_lower_case (trim search)) t

abbrev pub passes_text : (Text → Transaction → Bool) → Option Text → Transaction → Bool
passes_text f c t = is_empty (get_or c []) || f (get_or c []) t

filter_by_search_lem :
    (q : Transaction → Bool) (ts : List Transaction) (search : Text)
    → filter_by_search (filter q ts) search ≡ filter (λ t. q t && passes_search search t) ts
unfolding filter_by_search
filter_by_search_lem q ts search = filter_unless (is_empty (to_lower_case (trim search))) _ q ts

le_text_total : (s t : Text) → le_text s t ≡ false → le_text t s ≡ true
unfolding le_text compare_text
le_text_total [] [] h = cc
le_text_total [] (d ∷ t) h = cc
le_text_total (c ∷ s) [] h = refl
le_text_total (c ∷ s) (d ∷ t) h = ground (arith, le_text_total s t)

if_Perm : (b : Bool) {x y z : List Transaction} → Perm x z → Perm y z → Perm (if b then x else y) z
if_Perm true p q = p
if_Perm false p q = q

step_unless :
    (b : Bool) (p q : Transaction → Bool) (ts : List Transaction) {kept : List Transaction}
    → kept ≡ filter (λ t. q t && p t) ts
    → (if b then filter q ts else kept) ≡ filter (λ t. q t && (b || p t)) ts
step_unless true p q ts h = filter-and_true q ts
step_unless false p q ts h = h

step_text_lem :
    (g : List Transaction → Text → List Transaction) (f : Text → Transaction → Bool)
    (c : Option Text) (q : Transaction → Bool) (ts : List Transaction)
    → ((s : Text) → g (filter q ts) s ≡ filter (λ t. q t && f s t) ts)
    → step_text g c (filter q ts) ≡ filter (λ t. q t && passes_text f c t) ts
unfolding step_text
step_text_lem g f c q ts h =
    step_unless (is_empty (get_or c [])) (f (get_or c [])) q ts (h (get_or c []))

filter-ap :
    (p q : Transaction → Bool)
    → ((t : Transaction) → p t ≡ q t)
    → (ts : List Transaction) → filter p ts ≡ filter q ts
filter-ap p q h [] = refl
filter-ap p q h (t ∷ ts) = rw (h t, filter-ap p q h ts) refl

module _ (local_day : Text → Text) where
  abbrev pub passes_period : Option Period → Transaction → Bool
  passes_period none t = true
  passes_period (some p) t = in_period local_day p t

  abbrev pub passes : FilterCriteria → Transaction → Bool
  passes c t =
      passes_text passes_search c.search t
      && passes_text fits_category c.category t
      && passes_text fits_subcategory c.subcategory t
      && passes_period c.date_range t

  insert_by_date-Perm :
      (t : Transaction) (ts : List Transaction) → Perm (insert_by_date local_day t ts) (t ∷ ts)
  unfolding insert_by_date
  insert_by_date-Perm t [] = Perm.refl (t ∷ [])
  insert_by_date-Perm t (u ∷ us) =
      if_Perm (not_before local_day t u) (Perm.refl (t ∷ u ∷ us))
        (Perm.trans (Perm.cons u (insert_by_date-Perm t us)) (Perm.swap t u us))

  sort_by_date-Perm : (ts : List Transaction) → Perm (sort_by_date local_day ts) ts
  unfolding sort_by_date
  sort_by_date-Perm [] = Perm.refl []
  sort_by_date-Perm (t ∷ ts) =
      Perm.trans (insert_by_date-Perm t (sort_by_date local_day ts))
        (Perm.cons t (sort_by_date-Perm ts))

  -- The first of the list, if any, is not of a later day than u.
  abbrev Leads : Transaction → List Transaction → Type 0
  Leads u [] = Unit {0}
  Leads u (t ∷ ts) =
      le_text (to_date_only_key local_day t.date) (to_date_only_key local_day u.date) ≡ true

  -- Each transaction is of the day of the next one or of a later one.
  abbrev pub IsNewestFirst : List Transaction → Type 0
  IsNewestFirst [] = Unit {0}
  IsNewestFirst (t ∷ ts) = Leads t ts × IsNewestFirst ts

  Leads-insert_by_date :
      (u t : Transaction) (ts : List Transaction)
      → le_text (to_date_only_key local_day t.date) (to_date_only_key local_day u.date) ≡ true
      → Leads u ts
      → Leads u (insert_by_date local_day t ts)
  unfolding insert_by_date not_before
  Leads-insert_by_date u t [] h k = h
  Leads-insert_by_date u t (v ∷ vs) h k = ground arith

  insert_by_date-IsNewestFirst :
      (t : Transaction) (ts : List Transaction)
      → IsNewestFirst ts
      → IsNewestFirst (insert_by_date local_day t ts)
  unfolding insert_by_date not_before
  insert_by_date-IsNewestFirst t [] h = (tt, tt)
  insert_by_date-IsNewestFirst t (u ∷ us) (k, h) =
      elim (not_before local_day t u)
          as (λ b.
            not_before local_day t u ≡ b
            → IsNewestFirst (if b then t ∷ u ∷ us else u ∷ insert_by_date local_day t us)) [
              | true ↦ λ p. (p, (k, h))
              | false ↦ λ p. (
                Leads-insert_by_date u t us
                    (le_text_total (to_date_only_key local_day u.date)
                      (to_date_only_key local_day t.date) p)
                    k,
                insert_by_date-IsNewestFirst t us h,
              )
            ]
        refl

  sort_by_date-IsNewestFirst : (ts : List Transaction) → IsNewestFirst (sort_by_date local_day ts)
  unfolding sort_by_date
  sort_by_date-IsNewestFirst [] = tt
  sort_by_date-IsNewestFirst (t ∷ ts) =
      insert_by_date-IsNewestFirst t (sort_by_date local_day ts) (sort_by_date-IsNewestFirst ts)

  filter_by_date_range_lem :
      (p? : Option Period) (q : Transaction → Bool) (ts : List Transaction)
      → step_period local_day p? (filter q ts) ≡ filter (λ t. q t && passes_period p? t) ts
  unfolding step_period filter_by_date_range
  filter_by_date_range_lem none q ts = filter-and_true q ts
  filter_by_date_range_lem (some p) q ts = filter-filter (in_period local_day p) q ts

  filter_steps :
      (ts : List Transaction) (c : FilterCriteria)
      → filter_transactions local_day ts c ≡ sort_by_date local_day (filter (passes c) ts)
  unfolding filter_transactions filter_by_category filter_by_subcategory
  filter_steps ts c =
      ap
        (λ l. sort_by_date local_day (
          step_period local_day c.date_range (
            step_text filter_by_subcategory c.subcategory
              (step_text filter_by_category c.category (step_text filter_by_search c.search l)))))
        (filter-true ts)
      ∙ ap
          (λ l. sort_by_date local_day (
            step_period local_day c.date_range (
              step_text filter_by_subcategory c.subcategory
                (step_text filter_by_category c.category l))))
          (step_text_lem filter_by_search passes_search c.search (λ t. true) ts
            (filter_by_search_lem (λ t. true) ts))
      ∙ ap
          (λ l.
            sort_by_date local_day (
              step_period local_day c.date_range (step_text filter_by_subcategory c.subcategory l)))
          (step_text_lem filter_by_category fits_category c.category _ ts
            (λ s. filter-filter (fits_category s) _ ts))
      ∙ ap (λ l. sort_by_date local_day (step_period local_day c.date_range l))
          (step_text_lem filter_by_subcategory fits_subcategory c.subcategory _ ts
            (λ s. filter-filter (fits_subcategory s) _ ts))
      ∙ ap (sort_by_date local_day) (filter_by_date_range_lem c.date_range _ ts)

  -- What the criteria ask of a transaction: its name or merchant contains the search, or it is pending
  -- and the search is `pending` or the first four letters of it at least.
  abbrev pub meets_search : Text → Transaction → Bool
  meets_search search t =
      let s = to_lower_case (trim search) in
      is_empty s
      || (includes (to_lower_case t.name) s
          || includes (to_lower_case (or_text t.merchant [])) s
          || (get_or t.pending false
              && (eq s (lit "pending") || (leb 4 (length s) && starts_with (lit "pending") s))))

  -- The category is the same, as it is or as it is shown.
  abbrev pub meets_category : Text → Transaction → Bool
  meets_category category t =
      same_name (primary_text t) category
      || same_name (format_category_name (some (primary_text t)))
          (format_category_name (some category))

  -- The day is not before the first one and not after the last one.
  abbrev pub meets_period : Option Period → Transaction → Bool
  meets_period none t = true
  meets_period (some p) t =
      let key = to_date_only_key local_day t.date in le_text p.start key && le_text key p.end

  abbrev pub meets : FilterCriteria → Transaction → Bool
  meets c t =
      (is_empty (get_or c.search []) || meets_search (get_or c.search []) t)
      && (is_empty (get_or c.category []) || meets_category (get_or c.category []) t)
      && (is_empty (get_or c.subcategory [])
          || eq (to_lower_case (detailed_text t)) (to_lower_case (get_or c.subcategory [])))
      && meets_period c.date_range t

  meets-passes : (c : FilterCriteria) (t : Transaction) → passes c t ≡ meets c t
  unfolding matches_search matches_pending fits_category fits_subcategory in_period
  meets-passes c t =
      elim (c.date_range)
        as (λ d. passes (record c { date_range = d }) t ≡ meets (record c { date_range = d }) t) [
          | none ↦ refl
          | some p ↦ refl
        ]

  -- The filtered list holds the transactions that meet every criterion that is given, each as often as
  -- it was there, and no transaction is of a later day than the one before it.
  pub filter_transactions_lem :
      (ts : List Transaction) (c : FilterCriteria)
      → Perm (filter_transactions local_day ts c) (filter (meets c) ts)
        × IsNewestFirst (filter_transactions local_day ts c)
  filter_transactions_lem ts c =
      rw (filter_steps ts c, sym (filter-ap (passes c) (meets c) (meets-passes c) ts))
        (
          sort_by_date-Perm (filter (passes c) ts),
          sort_by_date-IsNewestFirst (filter (passes c) ts),
        )

-- A transaction passes the filter for its own category.
pub fits_category_own : (t : Transaction) → fits_category (primary_text t) t ≡ true
unfolding fits_category
fits_category_own t = ground (arith, same_name_refl (primary_text t))
