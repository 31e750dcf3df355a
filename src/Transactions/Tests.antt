-- ===== src/Transactions/Tests.antt =====
-- Runs of the pages and of the edits.
use sumurai.Prelude.{◌≡◌, false, none, [], All}
use sumurai.Prelude.Text.{lit}
use sumurai.Http.{network_error, api_error, throw, Thrown}
use sumurai.Samples.{transactions}
use sumurai.Transactions.Edits.{ListState, create_category_rule}
use sumurai.Transactions.Edits.Failures.{Target, failed_rule}

abbrev loaded : ListState
loaded = record { all = transactions; error = none; is_loading = false; user_categories = [] }

abbrev offline : Thrown
offline = api_error (network_error (lit "Failed to fetch"))

failed_rule_example :
    ((create_category_rule
        (λ s. s)
        (lit "t1")
        (lit "store")
        (lit "Pets")
        none
        (throw offline)
        loaded).1
      ≡ throw offline)
    × All
        (Target (lit "t1") (lit "Pets"))
        (create_category_rule
          (λ s. s)
          (lit "t1")
          (lit "store")
          (lit "Pets")
          none
          (throw offline)
          loaded).0.all
failed_rule_example = failed_rule (λ s. s) (lit "t1") (lit "store") (lit "Pets") none offline loaded
