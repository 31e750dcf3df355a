-- ===== src/Transactions/Duplicates/Tests.antt =====
-- Runs of the search for duplicates.
use sumurai.Prelude.{◌≡◌, refl, true, false, some, List, [], ◌∷◌, ◌⊎◌, inl, any, not, ◌&&◌}
use sumurai.Prelude.Text.{lit, eq, includes, starts_with, split, to_lower_case, lower, contains}
use sumurai.Types.{Transaction}
use sumurai.Samples.{january, march}
use sumurai.Dates.Evaluation.{dates}
use sumurai.Dates.Calendar.{serial, days_before_month, days_before_year}
use sumurai.Transactions.Duplicates.{
  normalize_merchant, stop_words, tokenize_merchant, shares_token, includes_start,
  merchants_look_related, is_zero_amount, same_amount, within_week, same_account,
  are_duplicate_candidates, is_pending, has_posted_match, is_candidate, add_id, candidates_from,
  duplicate_candidate_ids, active_transactions,
}
use sumurai.Transactions.Duplicates.Hidden.{active_transactions_lem}

-- a charge, pending and posted two days later
abbrev charge : Transaction
charge = record march {
  id = lit "p1";
  merchant = some (lit "SQ *Blue Bottle");
  pending = some true;
}

abbrev posted_charge : Transaction
posted_charge = record march {
  id = lit "p2";
  merchant = some (lit "Blue Bottle Coffee");
  date = lit "2024-03-07";
}

abbrev list : List Transaction
list = charge ∷ posted_charge ∷ january ∷ []

list_run : duplicate_candidate_ids list ≡ lit "p1" ∷ []
unfolding eq includes starts_with split to_lower_case lower dates serial days_before_month
    days_before_year normalize_merchant stop_words tokenize_merchant shares_token includes_start
    merchants_look_related is_zero_amount same_amount within_week same_account
    are_duplicate_candidates has_posted_match is_candidate add_id candidates_from
    duplicate_candidate_ids
list_run = refl

active_transactions_lem_example :
    (contains (duplicate_candidate_ids list) (lit "p1") ≡ false)
    ⊎ ((true ≡ true)
        × (any
              (λ c. not (is_pending c) && are_duplicate_candidates charge c)
              (active_transactions list)
            ≡ true))
unfolding eq
active_transactions_lem_example =
    active_transactions_lem list charge (refl, (refl, (refl, tt))) (inl refl)
