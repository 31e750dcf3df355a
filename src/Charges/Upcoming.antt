-- ===== src/Charges/Upcoming.antt =====
-- frontend/src/domain/DashboardCalculator.ts: what a prediction promises.
use sumurai.Prelude.{
  subst, ℕ, zero, suc, ◌+◌, ◌-◌, ◌≤◌, ◌<◌, ◌≡◌, refl, Bool, true, false, ◌||◌, Option, none, some,
  List, [], ◌∷◌, take, length, length-take, All, All-map, if◌then◌else◌, ltb, ◌==◌, arith,
  Bool-cases, inl, inr, ◌>>=◌, >>=-eq-some, some-injective,
}
use sumurai.Prelude.Sorting.{
  sort_by, IsSorted, sort_by-IsSorted, take-IsSorted, sort_by-All, take-All,
}
use sumurai.Prelude.Text.{Text}
use sumurai.Types.{Transaction}
use sumurai.Filters.{starts_as_date}
use sumurai.Dates.{Date, IsValid}
use sumurai.Dates.Parsing.{parse_date_sound}
use sumurai.Dates.Order.{not_after}
use sumurai.Dates.Calendar.{add_days, serial}
use sumurai.Dates.Calendar.Serial.{
  days_between_later, IsCivil, serial-add_days, add_months_clamped_one,
}
use sumurai.Dates.Calendar.Order.{not_after_iff}
use sumurai.Charges.{
  Cadence, weekly, biweekly, monthly, quarterly, yearly, UpcomingChargePrediction, ChargeGroup,
  cadence_days, is_monthly, advance, advance_past, Dated, dated_before, latest, median2,
  is_left_out, prediction_of, next_charge_date, predict_next, predict_sorted, get_intervals,
  match_cadence, comes_first, add_prediction, to_date_key, with_dates, predict_groups,
  predict_upcoming_charges, group_charge_transactions,
}

-- One step of the loop goes to a day that exists and comes later,
advance_later :
    (c : Cadence) (d : Date) → IsCivil d → IsCivil (advance c d) × (serial d < serial (advance c d))
unfolding advance is_monthly cadence_days
advance_later monthly d h = let (k, l, _) = add_months_clamped_one d h in (k, l)
advance_later weekly d h = let (k, e) = serial-add_days d 7 h in (k, omega arith)
advance_later biweekly d h = let (k, e) = serial-add_days d 14 h in (k, omega arith)
advance_later quarterly d h = let (k, e) = serial-add_days d 91 h in (k, omega arith)
advance_later yearly d h = let (k, e) = serial-add_days d 365 h in (k, omega arith)

-- so that the loop ends behind today, with one round for each day up to today.
advance_past_later :
    (f : ℕ) (c : Cadence) (today d : Date)
    → IsCivil today
    → IsCivil d
    → serial today < f + serial d
    → IsCivil (advance_past f c today d) × (serial today < serial (advance_past f c today d))
unfolding advance_past
advance_past_later zero c today d t h l = (h, omega arith)
advance_past_later (suc f) c today d t h l = elim (Bool-cases (not_after d today)) [
  | inl p ↦
      let (k, m) = advance_later c d h in
      rw p (advance_past_later f c today (advance c d) t k (omega arith))
  | inr p ↦ rw p (h, ground (arith, not_after_iff d today h t))
]

-- A prediction for a day after today and not after the horizon, with the days up to it.
pub record IsUpcoming (today horizon : Date) (p : UpcomingChargePrediction) : Type 0 where
  pub exists_on : IsCivil p.next_date
  pub after_today : serial today < serial p.next_date
  pub within : serial p.next_date ≤ serial horizon
  pub days : serial today + p.days_until ≡ serial p.next_date
  pub one_dollar : 200 ≤ p.amount
  pub occurs_again : 2 ≤ p.occurrence_count

if_none-some :
    {A : Type 0} (b : Bool) (o : Option A) (c : A)
    → (if b then none else o) ≡ some c
    → (b ≡ false) × (o ≡ some c)
if_none-some true o c h = cc
if_none-some false o c h = (refl, h)

prediction_of-IsUpcoming :
    (today horizon : Date) (merchant : Text) (sorted : List Dated) (intervals : List ℕ)
    (c : Cadence)
    → IsCivil today
    → IsCivil horizon
    → IsCivil (latest today sorted)
    → 2 ≤ length sorted
    → is_left_out today horizon sorted intervals c ≡ false
    → IsUpcoming today horizon (prediction_of today merchant sorted intervals c)
unfolding prediction_of is_left_out next_charge_date
prediction_of-IsUpcoming today horizon merchant sorted intervals c t z l n h =
    let first = advance c (latest today sorted) in
    let next_date = advance_past (serial today + 1 - serial first) c today first in
    let (k, _) = advance_later c (latest today sorted) l in
    let (exists_on, after) =
      advance_past_later (serial today + 1 - serial first) c today first t k (omega arith) in
    record {
      exists_on = exists_on;
      after_today = after;
      within = ground (arith, not_after_iff next_date horizon exists_on z);
      days = days_between_later today next_date (omega arith);
      one_dollar = ground arith;
      occurs_again = n;
    }

predict_next-IsUpcoming :
    (today horizon : Date) (merchant : Text) (sorted : List Dated) (intervals : List ℕ)
    (c : Cadence) (p : UpcomingChargePrediction)
    → IsCivil today
    → IsCivil horizon
    → IsCivil (latest today sorted)
    → 2 ≤ length sorted
    → predict_next today horizon merchant sorted intervals c ≡ some p
    → IsUpcoming today horizon p
unfolding predict_next
predict_next-IsUpcoming today horizon merchant sorted intervals c p t z l n h =
    let (b, e) =
      if_none-some (is_left_out today horizon sorted intervals c)
        (some (prediction_of today merchant sorted intervals c)) p h in
    subst (IsUpcoming today horizon) (some-injective _ _ e)
      (prediction_of-IsUpcoming today horizon merchant sorted intervals c t z l n b)

predict_sorted-IsUpcoming :
    (today horizon : Date) (merchant : Text) (sorted : List Dated) (p : UpcomingChargePrediction)
    → IsCivil today
    → IsCivil horizon
    → IsCivil (latest today sorted)
    → predict_sorted today horizon merchant sorted ≡ some p
    → IsUpcoming today horizon p
unfolding predict_sorted
predict_sorted-IsUpcoming today horizon merchant sorted p t z l h =
    let found = match_cadence (median2 (get_intervals sorted)) >>= λ c.
    predict_next today horizon merchant sorted (get_intervals sorted) c in
    let (b, e) =
      if_none-some (ltb (length sorted) 2 || (length (get_intervals sorted) == 0)) found p h in
    let (c, _, q) = >>=-eq-some (match_cadence (median2 (get_intervals sorted))) _ e in
    predict_next-IsUpcoming today horizon merchant sorted (get_intervals sorted) c p t z l
      (ground arith) q

latest-IsCivil :
    (d : Date) (xs : List Dated) → IsCivil d → All (λ x. IsCivil x.0) xs → IsCivil (latest d xs)
unfolding latest
latest-IsCivil d [] h k = h
latest-IsCivil d (x ∷ xs) h (k, ks) = latest-IsCivil x.0 xs k ks

IsValid-IsCivil : (d : Date) → IsValid d → IsCivil d
IsValid-IsCivil d h = record {
  month_pos = h.month_pos;
  month_le = h.month_le;
  day_pos = h.day_pos;
  day_le = h.day_le;
}

add_prediction-All :
    (P : UpcomingChargePrediction → Type 0) (o : Option UpcomingChargePrediction)
    (ps : List UpcomingChargePrediction)
    → ((p : UpcomingChargePrediction) → o ≡ some p → P p)
    → All P ps
    → All P (add_prediction o ps)
unfolding add_prediction
add_prediction-All P none ps h k = k
add_prediction-All P (some p) ps h k = (h p refl, k)

days_bounds :
    (today : Date) (p : UpcomingChargePrediction) (n : ℕ)
    → serial (add_days today n) ≡ serial today + n
    → IsUpcoming today (add_days today n) p
    → (1 ≤ p.days_until) × (p.days_until ≤ n)
days_bounds today p n e h =
    let (a, b, c) : (serial today < serial p.next_date)
        × (serial p.next_date ≤ serial (add_days today n))
        × (serial today + p.days_until ≡ serial p.next_date) =
      (h.after_today, h.within, h.days) in
    (omega arith, omega arith)

comes_first_total :
    (p q : UpcomingChargePrediction) → comes_first p q ≡ false → comes_first q p ≡ true
unfolding comes_first
comes_first_total p q h = ground arith

module _ (local_date : Text → Option Date)
    (local_date-IsCivil : (t : Text) (d : Date) → local_date t ≡ some d → IsCivil d) where
  to_date_key-IsCivil : (t : Text) (d : Date) → to_date_key local_date t ≡ some d → IsCivil d
  unfolding to_date_key
  to_date_key-IsCivil t d h = elim (Bool-cases (starts_as_date t)) [
    | inl p ↦ IsValid-IsCivil d (parse_date_sound (take 10 t) d (rw p at h)).1
    | inr p ↦ local_date-IsCivil t d (rw p at h)
  ]

  with_dates-IsCivil : (ts : List Transaction) → All (λ x. IsCivil x.0) (with_dates local_date ts)
  unfolding with_dates
  with_dates-IsCivil [] = tt
  with_dates-IsCivil (t ∷ ts) =
      elim (to_date_key local_date t.date)
          as (λ o.
            to_date_key local_date t.date ≡ o
            → All (λ x. IsCivil x.0)
                (elim o [
                  | none ↦ with_dates local_date ts
                  | some d ↦ (d, t) ∷ with_dates local_date ts
                ])) [
                  | none ↦ λ p. with_dates-IsCivil ts
                  | some d ↦ λ p. (to_date_key-IsCivil t.date d p, with_dates-IsCivil ts)
                ]
        refl

  predict_groups-IsUpcoming :
      (today horizon : Date) (gs : List ChargeGroup)
      → IsCivil today
      → IsCivil horizon
      → All (IsUpcoming today horizon) (predict_groups local_date today horizon gs)
  unfolding predict_groups
  predict_groups-IsUpcoming today horizon [] t z = tt
  predict_groups-IsUpcoming today horizon (g ∷ gs) t z =
      let dated = with_dates local_date g.transactions in
      add_prediction-All (IsUpcoming today horizon) _ _
        (λ p.
          predict_sorted-IsUpcoming today horizon g.merchant (sort_by dated_before dated) p t z (
            latest-IsCivil today _ t (
              sort_by-All dated_before (λ x. IsCivil x.0) dated
                (with_dates-IsCivil g.transactions))))
        (predict_groups-IsUpcoming today horizon gs t z)

  -- The predictions are at most eight, sorted by their day and then by their amount, and each is for a
  -- day that exists, after today and within the days of the horizon.
  pub predict_upcoming_charges_lem :
      (ts : List Transaction) (today : Date) (horizon_days : ℕ)
      → IsCivil today
      → let ps = predict_upcoming_charges local_date ts today horizon_days in
        (length ps ≤ 8)
        × IsSorted comes_first ps
        × All (IsUpcoming today (add_days today horizon_days)) ps
        × All (λ p. (1 ≤ p.days_until) × (p.days_until ≤ horizon_days)) ps
  unfolding predict_upcoming_charges
  predict_upcoming_charges_lem ts today horizon_days t =
      let (z, e) = serial-add_days today horizon_days t in
      let horizon = add_days today horizon_days in
      let groups = predict_groups local_date today horizon (group_charge_transactions ts) in
      let upcoming = take-All (IsUpcoming today horizon) 8 (sort_by comes_first groups) (
        sort_by-All comes_first (IsUpcoming today horizon) groups
          (predict_groups-IsUpcoming today horizon (group_charge_transactions ts) t z)) in
      (
        (length-take 8 (sort_by comes_first groups)).0,
        take-IsSorted comes_first 8 _ (sort_by-IsSorted comes_first comes_first_total groups),
        upcoming,
        All-map (λ p h. days_bounds today p horizon_days e h) _ upcoming,
      )
