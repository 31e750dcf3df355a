-- ===== src/Dates/Tests.antt =====
-- Runs of the date functions.
use sumurai.Prelude.{◌≡◌, refl, none, some, arith}
use sumurai.Prelude.Text.{lit}
use sumurai.Dates.{date, IsValid, parse_date, parse_int}
use sumurai.Dates.Evaluation.{dates}

reads :
    (parse_date (lit "2024-02-29") ≡ some (date 2024 2 29))
    × (parse_date (lit "2023-02-29") ≡ none)
    × (parse_date (lit "yesterday") ≡ none)
    × (parse_int (lit " +08x") ≡ some 8)
    × (parse_int (lit "x8") ≡ none)
unfolding dates
reads = (refl, refl, refl, refl, refl)

leap_day-IsValid : IsValid (date 2024 2 29)
unfolding dates
leap_day-IsValid = omega arith
