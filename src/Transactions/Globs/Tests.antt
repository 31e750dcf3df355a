-- ===== src/Transactions/Globs/Tests.antt =====
-- Runs of the patterns.
use sumurai.Prelude.{◌≡◌, ◌≢◌, refl, true, [], ◌↔◌}
use sumurai.Prelude.Text.{lit, lower}
use sumurai.Transactions.Globs.{
  is_dot, matches_one, matches_star, matches_next, matches_pattern, match_glob,
}
use sumurai.Transactions.Globs.Matching.{Stands, match_glob_iff}

glob_run : match_glob (lit "blue*c?ffee") (lit "Blue Bottle Coffee") ≡ true
unfolding is_dot matches_one matches_star matches_next matches_pattern match_glob lower
glob_run = refl

match_glob_iff_example :
    (match_glob (lit "uber*") (lit "UBER TRIP") ≡ true)
    ↔ ((lit "uber*" ≢ []) × (lit "UBER TRIP" ≢ []) × Stands (lit "uber*") (lit "UBER TRIP"))
match_glob_iff_example = match_glob_iff (lit "uber*") (lit "UBER TRIP")
