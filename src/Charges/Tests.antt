-- ===== src/Charges/Tests.antt =====
-- Runs of the predictions.
use sumurai.Prelude.{◌≡◌, refl, ◌≤◌, All, Option, none, some, List, [], ◌∷◌, length, arith}
use sumurai.Prelude.Int.{pos, neg, ◌+ℤ◌, ◌-ℤ◌}
use sumurai.Prelude.Text.{Text, lit, eq, trim, trim_start, to_lower_case}
use sumurai.Prelude.Sorting.{IsSorted, sort_by, insert_by}
use sumurai.Types.{Transaction}
use sumurai.Samples.{posted}
use sumurai.Filters.{starts_as_date}
use sumurai.Amounts.Evaluation.{amounts}
use sumurai.Dates.{Date, date}
use sumurai.Dates.Evaluation.{dates}
use sumurai.Dates.Calendar.{
  next_day, add_days, add_months_clamped, days_before_month, days_before_year, serial, days_between,
}
use sumurai.Dates.Calendar.Serial.{IsCivil}
use sumurai.Charges.{
  UpcomingChargePrediction, monthly, high, collapse_spaces, starts_with_digits, cut_number,
  normalize_merchant, group_key, add_to_group, group_step, group_from, group_charge_transactions,
  number_at, median2, distance, cadence_days, cadences, score2, is_match, first_cadence, closer,
  match_cadence, is_stable, is_monthly, advance, advance_past, last_four, sum, is_steady,
  confidence_of, dated_before, get_intervals, charge_amount, latest, next_charge_date, is_left_out,
  prediction_of, predict_next, predict_sorted, comes_first, add_prediction, to_date_key, with_dates,
  predict_groups, predict_upcoming_charges,
}
use sumurai.Charges.Upcoming.{IsUpcoming, predict_upcoming_charges_lem}

abbrev rent : Text → Transaction
rent day = posted (lit "t") day (lit "checking") (lit "Rent") (pos 120_000)

abbrev rents : List Transaction
rents = rent (lit "2024-03-05") ∷ rent (lit "2024-01-05") ∷ rent (lit "2024-02-05") ∷ []

abbrev today : Date
today = date 2024 3 20

abbrev no_date : Text → Option Date
no_date t = none

abbrev next_rent : UpcomingChargePrediction
next_rent = record {
  merchant = lit "Store";
  amount = 240_000;
  next_date = date 2024 4 5;
  days_until = 16;
  cadence = monthly;
  confidence = high;
  occurrence_count = 3;
}

rents_run : predict_upcoming_charges no_date rents today 45 ≡ next_rent ∷ []
unfolding neg ◌+ℤ◌ ◌-ℤ◌ eq trim trim_start to_lower_case sort_by insert_by starts_as_date amounts
    dates next_day add_days add_months_clamped days_before_month days_before_year serial
    days_between collapse_spaces starts_with_digits cut_number normalize_merchant group_key
    add_to_group group_step group_from group_charge_transactions number_at median2 distance
    cadence_days cadences score2 is_match first_cadence closer match_cadence is_stable is_monthly
    advance advance_past last_four sum is_steady confidence_of dated_before get_intervals
    charge_amount latest next_charge_date is_left_out prediction_of predict_next predict_sorted
    comes_first add_prediction to_date_key with_dates predict_groups predict_upcoming_charges
rents_run = refl

today-IsCivil : IsCivil today
unfolding dates
today-IsCivil = record {
  month_pos = omega arith;
  month_le = omega arith;
  day_pos = omega arith;
  day_le = omega arith;
}

no_date-IsCivil : (t : Text) (d : Date) → no_date t ≡ some d → IsCivil d
no_date-IsCivil t d h = cc

predict_upcoming_charges_lem_example :
    (length (predict_upcoming_charges no_date rents today 45) ≤ 8)
    × IsSorted comes_first (predict_upcoming_charges no_date rents today 45)
    × All (IsUpcoming today (add_days today 45)) (predict_upcoming_charges no_date rents today 45)
    × All
        (λ p. (1 ≤ p.days_until) × (p.days_until ≤ 45))
        (predict_upcoming_charges no_date rents today 45)
predict_upcoming_charges_lem_example =
    predict_upcoming_charges_lem no_date no_date-IsCivil rents today 45 today-IsCivil
