-- ===== src/Filters.antt =====
-- frontend/src/domain/TransactionFilter.ts, with `toDateOnlyKey` of utils/dateOnly.ts. `local_day`
-- stands for what `toDateOnlyKey` does with a text that does not start as YYYY-MM-DD: it depends on
-- the time zone of the browser. Of two such keys, `localeCompare` tells the order of their texts.
pub mod Order
mod Tests
use sumurai.Prelude.{
  ℕ, Bool, true, false, not, ◌&&◌, ◌||◌, Option, none, some, List, [], ◌∷◌, ◌++◌, filter,
  if◌then◌else◌, get_or, ◌==◌, leb, length, all, take,
}
use sumurai.Prelude.Text.{
  Text, lit, eq, is_empty, is_digit, or_text, to_lower_case, trim, includes, starts_with, le_text,
}
use sumurai.Types.{Transaction}
use sumurai.Categories.{format_category_name}
use sumurai.Budgets.{same_name, primary_text, detailed_text}

pub record Period : Type 0 where
  pub start : Text
  pub end : Text

pub record FilterCriteria : Type 0 where
  pub search : Option Text
  pub category : Option Text
  pub subcategory : Option Text
  pub date_range : Option Period

pub matches_pending : Text → Transaction → Bool
matches_pending s t =
    get_or t.pending false
    && (eq s (lit "pending") || (leb 4 (length s) && starts_with (lit "pending") s))

pub matches_search : Text → Transaction → Bool
matches_search s t =
    includes (to_lower_case t.name) s
    || includes (to_lower_case (or_text t.merchant [])) s
    || matches_pending s t

pub filter_by_search : List Transaction → Text → List Transaction
filter_by_search ts search =
    let s = to_lower_case (trim search) in if is_empty s then ts else filter (matches_search s) ts

pub fits_category : Text → Transaction → Bool
fits_category category t =
    same_name (primary_text t) category
    || same_name (format_category_name (some (primary_text t)))
        (format_category_name (some category))

pub filter_by_category : List Transaction → Text → List Transaction
filter_by_category ts category = filter (fits_category category) ts

pub fits_subcategory : Text → Transaction → Bool
fits_subcategory sub t = eq (to_lower_case (detailed_text t)) (to_lower_case sub)

pub filter_by_subcategory : List Transaction → Text → List Transaction
filter_by_subcategory ts sub = filter (fits_subcategory sub) ts

-- An empty text is no criterion.
pub step_text :
    (List Transaction → Text → List Transaction) → Option Text → List Transaction → List Transaction
step_text f c result = if is_empty (get_or c []) then result else f result (get_or c [])

-- `DATE_ONLY_PATTERN`
unfoldable pub starts_as_date : Text → Bool
starts_as_date (y1 ∷ y2 ∷ y3 ∷ y4 ∷ h ∷ m1 ∷ m2 ∷ k ∷ d1 ∷ d2 ∷ s) =
    all is_digit (y1 ∷ y2 ∷ y3 ∷ y4 ∷ m1 ∷ m2 ∷ d1 ∷ d2 ∷ []) && (h == b'-') && (k == b'-')
starts_as_date _ = false

module _ (local_day : Text → Text) where
  pub to_date_only_key : Text → Text
  to_date_only_key value = if starts_as_date value then take 10 value else local_day value

  pub in_period : Period → Transaction → Bool
  in_period p t = let key = to_date_only_key t.date in le_text p.start key && le_text key p.end

  pub filter_by_date_range : List Transaction → Period → List Transaction
  filter_by_date_range ts p = filter (in_period p) ts

  -- `a` stands before `b` in the sorted list, or may: its day is not the earlier one.
  pub not_before : Transaction → Transaction → Bool
  not_before a b = le_text (to_date_only_key b.date) (to_date_only_key a.date)

  -- The sort is stable.
  pub insert_by_date : Transaction → List Transaction → List Transaction
  insert_by_date t [] = t ∷ []
  insert_by_date t (u ∷ us) = if not_before t u then t ∷ u ∷ us else u ∷ insert_by_date t us

  pub sort_by_date : List Transaction → List Transaction
  sort_by_date [] = []
  sort_by_date (t ∷ ts) = insert_by_date t (sort_by_date ts)

  pub step_period : Option Period → List Transaction → List Transaction
  step_period none result = result
  step_period (some p) result = filter_by_date_range result p

  pub filter_transactions : List Transaction → FilterCriteria → List Transaction
  filter_transactions ts c = sort_by_date (
      step_period c.date_range (
        step_text filter_by_subcategory c.subcategory
          (step_text filter_by_category c.category (step_text filter_by_search c.search ts))))
