-- ===== src/Categories.antt =====
-- frontend/src/utils/categories.ts: category names, their resolution to a major category, and the
-- categories that spending leaves out. `userCategories` left out is the empty list, over which the
-- source's loops and searches do nothing.
pub mod Taxonomy
pub mod Letters
pub mod Evaluation
mod Tests
use sumurai.Prelude.{
  ℕ, Bool, true, false, not, ◌&&◌, ◌||◌, Option, none, some, List, [], ◌∷◌, ◌++◌, map,
  if◌then◌else◌, filter, any, find?, get_or, drop, ◌==◌,
}
use sumurai.Prelude.Text.{
  Text, lit, eq, to_lower_case, upper, lower, is_space, is_alnum, is_empty, trim, starts_with,
  includes, split, join, contains, or_text,
}
use mathlib.Core.Option
use Taxonomy.{CategoryDefinition, categories_taxonomy}

pub record UserCategory : Type 0 where
  pub name : Text
  pub parent_category : Option Text

-- `word.charAt(0).toUpperCase() + word.slice(1).toLowerCase()`
capitalize : Text → Text
capitalize [] = []
capitalize (c ∷ s) = upper c ∷ to_lower_case s

abbrev is_separator : ℕ → Bool
is_separator c = (c == b'_') || is_space c

-- The names that `formatCategoryName` shows as Shopping: before the words are capitalised, and
-- after.
generic_norms : List Text
generic_norms =
    lit "other"
    ∷ lit "uncategorized"
    ∷ lit "unknown"
    ∷ lit "general merchandise"
    ∷ lit "general_merchandise"
    ∷ lit "general"
    ∷ []

capitalized_words : Text → Text
capitalized_words s =
    join (lit " ") (map capitalize (filter (λ w. not (is_empty w)) (split is_separator (trim s))))

format_present : Text → Text
format_present s =
    let formatted = capitalized_words s in
    if contains generic_norms (to_lower_case (trim s))
    then lit "Shopping"
    else if contains (lit "general merchandise" ∷ lit "other" ∷ []) (to_lower_case formatted)
    then lit "Shopping"
    else formatted

pub format_category_name : Option Text → Text
format_category_name none = lit "Shopping"
format_category_name (some s) = if is_empty s then lit "Shopping" else format_present s

-- `CATEGORIES_TAXONOMY.find((c) => c.name.toLowerCase() === norm)`, its name.
major_named : Text → Option Text
major_named norm =
    Option.map (λ (c : CategoryDefinition). c.name)
      (find? (λ (c : CategoryDefinition). eq (to_lower_case c.name) norm) categories_taxonomy)

major_with_subcategory : Text → Option Text
major_with_subcategory norm =
    Option.map (λ (c : CategoryDefinition). c.name)
      (find? (λ (c : CategoryDefinition). any (λ sub. eq (to_lower_case sub) norm) c.subcategories)
        categories_taxonomy)

user_named : List UserCategory → Text → Option UserCategory
user_named user norm = find? (λ (c : UserCategory). eq (to_lower_case c.name) norm) user

-- The last tests of `getMajorCategoryForSubcategory`, from "Other xx" on.
major_by_words : Text → Option Text
major_by_words norm =
    if starts_with norm (lit "other ")
    then some (get_or (major_named (trim (drop 6 norm))) (lit "Shopping"))
    else if eq norm (lit "water")
        || includes norm (lit "water")
        || includes norm (lit "rent_and_utilities")
        || includes norm (lit "rent & utilities")
    then some (lit "Bills & Utilities")
    else if contains (lit "home supplies" ∷ lit "home_supplies" ∷ lit "homesupplies" ∷ []) norm
    then some (lit "Home Improvement")
    else none

-- `if (uc?.parent_category) return uc.parent_category`, and on to the next test otherwise
present_parent : Option UserCategory → Option Text
present_parent none = none
present_parent (some c) = elim c.parent_category [
  | none ↦ none
  | some p ↦ if is_empty p then none else some p
]

or_option : Option Text → Option Text → Option Text
or_option none o = o
or_option (some t) o = some t

major_for_norm : List UserCategory → Text → Option Text
major_for_norm user norm =
    if contains
      (lit "general merchandise"
        ∷ lit "general_merchandise"
        ∷ lit "other"
        ∷ lit "uncategorized"
        ∷ lit "general"
        ∷ [])
      norm
    then some (lit "Shopping")
    else or_option (present_parent (user_named user norm))
        (or_option (major_with_subcategory norm) (major_by_words norm))

pub get_major_category_for_subcategory : List UserCategory → Text → Option Text
get_major_category_for_subcategory user name = major_for_norm user (to_lower_case (trim name))

-- `s.toLowerCase().replace(/[^a-z0-9]/g, '')`
pub norm_key : Text → Text
norm_key s = filter is_alnum (to_lower_case s)

-- The names that `resolveMajorCategory` maps by their key alone.
major_by_key : Text → Option Text
major_by_key key =
    if contains
      (lit "rentandutilities"
        ∷ lit "rentutilities"
        ∷ lit "rentandutilitieswater"
        ∷ lit "rentutilitieswater"
        ∷ [])
      key
    then some (lit "Bills & Utilities")
    else if contains (lit "homesupplies" ∷ lit "householdsupplies" ∷ []) key
    then some (lit "Home Improvement")
    else if contains
        (lit "personalcare"
          ∷ lit "generalmerchandise"
          ∷ lit "other"
          ∷ lit "uncategorized"
          ∷ lit "unknown"
          ∷ [])
        key
    then some (lit "Shopping")
    else if contains (lit "foodanddrink" ∷ lit "fooddrink" ∷ []) key
    then some (lit "Food & Dining")
    else none

-- `if (fromSub) return fromSub`
present : Option Text → Option Text
present none = none
present (some t) = if is_empty t then none else some t

-- `uc.parent_category || uc.name`
parent_or_name : UserCategory → Text
parent_or_name c = or_text c.parent_category c.name

formatted_major : Text → Text
formatted_major formatted =
    if eq formatted (lit "Shopping")
    then lit "Shopping"
    else get_or (major_named (to_lower_case formatted)) formatted

other_major : Text → Option Text
other_major clean =
    if starts_with (to_lower_case clean) (lit "other ")
    then some (get_or (major_named (to_lower_case (trim (drop 6 clean)))) (lit "Shopping"))
    else none

resolve_clean : List UserCategory → Text → Text
resolve_clean user clean = get_or (major_by_key (norm_key clean)) (
    get_or (major_named (to_lower_case clean)) (
      get_or (present (get_major_category_for_subcategory user clean)) (
        get_or (other_major clean) (
          get_or (Option.map parent_or_name (user_named user (to_lower_case clean)))
            (formatted_major (format_category_name (some clean)))))))

resolve_present : List UserCategory → Text → Text
resolve_present user s =
    let clean = trim s in if is_empty clean then lit "Shopping" else resolve_clean user clean

pub resolve_major_category : List UserCategory → Option Text → Text
resolve_major_category user none = lit "Shopping"
resolve_major_category user (some s) = if is_empty s then lit "Shopping" else resolve_present user s

excluded_keys : List Text
excluded_keys =
    lit "creditcardbill"
    ∷ lit "creditcardbills"
    ∷ lit "creditcardpayment"
    ∷ lit "creditcardpayments"
    ∷ lit "investment"
    ∷ lit "investments"
    ∷ lit "transferin"
    ∷ lit "transferout"
    ∷ lit "loanpaymentscreditcardpayment"
    ∷ lit "income"
    ∷ lit "transfer"
    ∷ lit "transferexcludefrombudget"
    ∷ lit "cashspendingtransfer"
    ∷ lit "cryptodeposit"
    ∷ lit "cryptoother"
    ∷ lit "cryptowithdrawal"
    ∷ lit "investmentdeposit"
    ∷ lit "investmentwithdrawal"
    ∷ lit "mortgagepayment"
    ∷ lit "othertransfer"
    ∷ lit "paycheck"
    ∷ lit "bonus"
    ∷ []

excluded_majors : List Text
excluded_majors = lit "Transfer" ∷ lit "Tax Refund" ∷ lit "Earned Income" ∷ []

pub is_spending_excluded_category : Option Text → Bool
is_spending_excluded_category none = false
is_spending_excluded_category (some s) =
    if is_empty s
    then false
    else contains excluded_majors (resolve_major_category [] (some s))
      || contains excluded_keys (norm_key (trim s))
