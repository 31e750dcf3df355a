-- ===== src/Categories/Letters.antt =====
-- frontend/src/utils/categories.ts: names that differ in the case of their letters.
use sumurai.Prelude.{
  ℕ, ◌≡◌, refl, inl, inr, not, some, List, [], ◌∷◌, map, arith, filter, Bool-cases,
}
use sumurai.Prelude.Text.{Text, to_lower_case, lower, is_empty, trim, split}
use sumurai.Prelude.Case.{
  upper-lower, to_lower_case_idem, is_empty-to_lower_case, drop-to_lower_case, trim-to_lower_case,
  split-to_lower_case,
}
use sumurai.Categories.{
  capitalize, is_separator, capitalized_words, format_present, format_category_name, norm_key,
  get_major_category_for_subcategory, other_major, resolve_clean, resolve_present,
  resolve_major_category, is_spending_excluded_category, UserCategory,
}

is_separator-lower : (c : ℕ) → is_separator (lower c) ≡ is_separator c
unfolding lower
is_separator-lower c = ground arith

capitalize-to_lower_case : (w : Text) → capitalize (to_lower_case w) ≡ capitalize w
unfolding capitalize to_lower_case
capitalize-to_lower_case [] = refl
capitalize-to_lower_case (c ∷ s) = cc (upper-lower c, to_lower_case_idem s)

-- Capitalising the non-empty pieces forgets the case that they had.
words-to_lower_case :
    (ws : List Text)
    → map capitalize (filter (λ w. not (is_empty w)) (map to_lower_case ws))
      ≡ map capitalize (filter (λ w. not (is_empty w)) ws)
words-to_lower_case [] = refl
words-to_lower_case (w ∷ ws) = elim (Bool-cases (is_empty w)) [
  | inl e ↦ rw (is_empty-to_lower_case w, e) (words-to_lower_case ws)
  | inr e ↦ rw (is_empty-to_lower_case w, e, capitalize-to_lower_case w, words-to_lower_case ws)
]

capitalized_words-to_lower_case :
    (s : Text) → capitalized_words (to_lower_case s) ≡ capitalized_words s
unfolding capitalized_words
capitalized_words-to_lower_case s = rw (
  trim-to_lower_case s,
  split-to_lower_case is_separator (trim s) is_separator-lower,
  words-to_lower_case (split is_separator (trim s)),
)

format_present-to_lower_case : (s : Text) → format_present (to_lower_case s) ≡ format_present s
unfolding format_present
format_present-to_lower_case s =
    simp (capitalized_words-to_lower_case, trim-to_lower_case, to_lower_case_idem)

-- How a category name is shown does not depend on the case of its letters.
pub format_category_name_case :
    (s : Text) → format_category_name (some (to_lower_case s)) ≡ format_category_name (some s)
unfolding format_category_name
format_category_name_case s = rw (is_empty-to_lower_case s, format_present-to_lower_case s)

norm_key-to_lower_case : (s : Text) → norm_key (to_lower_case s) ≡ norm_key s
unfolding norm_key
norm_key-to_lower_case s = rw (to_lower_case_idem s)

other_major-to_lower_case : (s : Text) → other_major (to_lower_case s) ≡ other_major s
unfolding other_major
other_major-to_lower_case s = simp (to_lower_case_idem, drop-to_lower_case, trim-to_lower_case)

subcategory-to_lower_case :
    (user : List UserCategory) (s : Text)
    → get_major_category_for_subcategory user (to_lower_case s)
      ≡ get_major_category_for_subcategory user s
unfolding get_major_category_for_subcategory
subcategory-to_lower_case user s = simp (to_lower_case_idem, trim-to_lower_case)

resolve_clean-to_lower_case :
    (user : List UserCategory) (s : Text)
    → resolve_clean user (to_lower_case s) ≡ resolve_clean user s
unfolding resolve_clean
resolve_clean-to_lower_case user s = simp (
  norm_key-to_lower_case, to_lower_case_idem, subcategory-to_lower_case, other_major-to_lower_case,
  format_category_name_case,
)

-- The major category of a name does not depend on the case of its letters, whatever the user's own
-- categories are.
pub resolve_major_category_case :
    (user : List UserCategory) (s : Text)
    → resolve_major_category user (some (to_lower_case s)) ≡ resolve_major_category user (some s)
unfolding resolve_major_category resolve_present
resolve_major_category_case user s = rw (
  is_empty-to_lower_case s,
  trim-to_lower_case s,
  is_empty-to_lower_case (trim s),
  resolve_clean-to_lower_case user (trim s),
)

-- Whether spending leaves a category out does not depend on the case of its letters.
pub is_spending_excluded_category_case :
    (s : Text)
    → is_spending_excluded_category (some (to_lower_case s))
      ≡ is_spending_excluded_category (some s)
unfolding is_spending_excluded_category
is_spending_excluded_category_case s = simp (
  is_empty-to_lower_case, resolve_major_category_case, trim-to_lower_case, norm_key-to_lower_case,
)
