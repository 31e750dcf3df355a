-- ===== src/Categories/Evaluation.antt =====
-- What a run of the category functions unfolds, for the tests here and in the modules that use them.
use sumurai.Prelude.Text.{eq, trim, split, join, starts_with, includes, lower, upper, to_lower_case}
use sumurai.Categories.Taxonomy.{categories_taxonomy}
use sumurai.Categories.{
  resolve_major_category, format_category_name, is_spending_excluded_category, capitalize,
  generic_norms, capitalized_words, format_present, major_named, major_with_subcategory, user_named,
  major_by_words, present_parent, or_option, major_for_norm, get_major_category_for_subcategory,
  major_by_key, present, parent_or_name, formatted_major, other_major, resolve_clean,
  resolve_present, excluded_keys, excluded_majors, norm_key,
}

unfoldable pub categories : Unit {0}
unfolding capitalize generic_norms capitalized_words format_present major_named
    major_with_subcategory user_named major_by_words present_parent or_option major_for_norm
    get_major_category_for_subcategory major_by_key present parent_or_name formatted_major
    other_major resolve_clean resolve_present excluded_keys excluded_majors norm_key trim eq split
    join starts_with includes lower upper to_lower_case categories_taxonomy resolve_major_category
    is_spending_excluded_category format_category_name
categories = tt
