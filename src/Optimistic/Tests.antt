-- ===== src/Optimistic/Tests.antt =====
-- Runs of the optimistic helpers on lists of texts, which are their own ids.
use sumurai.Prelude.{◌≡◌, refl, ◌++◌, List, [], ◌∷◌}
use sumurai.Prelude.Text.{Text, lit, eq}
use sumurai.Http.{Thrown, plain_error, throw}
use sumurai.Optimistic.{has_id, optimistic_create}
use sumurai.Optimistic.Rollback.{Lacks, optimistic_create_rollback}

abbrev own_id : Text → Text
own_id t = t

abbrev before : List Text
before = lit "a" ∷ lit "b" ∷ []

abbrev extra : List Text
extra = lit "c" ∷ []

abbrev offline_error : Thrown
offline_error = plain_error (lit "Failed to fetch")

before-Lacks : Lacks own_id (lit "temp") before
unfolding has_id eq
before-Lacks = (refl, (refl, tt))

extra-Lacks : Lacks own_id (lit "temp") extra
unfolding has_id eq
extra-Lacks = (refl, tt)

optimistic_create_rollback_example :
    optimistic_create own_id (lit "temp") (throw offline_error) (λ l. l ++ extra) before
    ≡ (before ++ extra, throw offline_error)
optimistic_create_rollback_example =
    optimistic_create_rollback own_id (lit "temp") offline_error before extra before-Lacks
      extra-Lacks
