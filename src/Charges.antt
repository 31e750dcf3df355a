-- ===== src/Charges.antt =====
-- frontend/src/domain/DashboardCalculator.ts: `predictUpcomingCharges`. A date key is the date that
-- it is the text of, and the order of keys is that of dates. `local_date` stands for what
-- `toDateKey` makes of a text that does not start as YYYY-MM-DD. Amounts are in cents; a median is
-- kept doubled, and the tests on quotients are multiplied out.
pub mod Upcoming
mod Tests
use sumurai.Prelude.{
  ℕ, zero, suc, ◌+◌, ◌-◌, ◌*◌, ◌/◌, ◌%◌, ◌≤◌, Bool, true, false, not, ◌&&◌, ◌||◌, Option, none,
  some, List, [], ◌∷◌, ◌++◌, map, filter, all, take, drop, length, if◌then◌else◌, get_or, ltb, leb,
  ◌==◌, ◌>>=◌, max,
}
use sumurai.Prelude.Int.{ℤ, pos, negsuc, pos_part, neg_part, ltb_ℤ}
use sumurai.Prelude.Text.{Text, lit, eq, is_empty, is_digit, is_space, or_text, trim}
use sumurai.Prelude.Sorting.{sort_by}
use sumurai.Types.{Transaction}
use sumurai.Amounts.{get_display_amount}
use sumurai.Filters.{starts_as_date}
use sumurai.Dates.{Date, parse_date}
use sumurai.Dates.Order.{not_after}
use sumurai.Dates.Calendar.{add_days, add_months_clamped, serial, days_between}

pub data Cadence : Type 0 where
  weekly biweekly monthly quarterly yearly : Cadence

pub data Confidence : Type 0 where
  high medium : Confidence

-- `amount` is twice the amount.
pub record UpcomingChargePrediction : Type 0 where
  pub merchant : Text
  pub amount : ℕ
  pub next_date : Date
  pub days_until : ℕ
  pub cadence : Cadence
  pub confidence : Confidence
  pub occurrence_count : ℕ

pub record ChargeGroup : Type 0 where
  pub key : Text
  pub merchant : Text
  pub transactions : List Transaction

-- `replace(/\s+/g, ' ')`; the Boolean is whether the character before was white space
pub collapse_spaces : Bool → Text → Text
collapse_spaces b [] = []
collapse_spaces b (c ∷ s) =
    let rest = collapse_spaces (is_space c) s in
    if is_space c then (if b then rest else b' ' ∷ rest) else c ∷ rest

pub starts_with_digits : Text → Bool
starts_with_digits (c ∷ d ∷ s) = is_digit c && is_digit d
starts_with_digits _ = false

-- `replace(/\s+\d{2,}.*$/, '')` where every white space is one space
pub cut_number : Text → Text
cut_number [] = []
cut_number (c ∷ s) =
    let rest = cut_number s in if is_space c && starts_with_digits s then [] else c ∷ rest

pub normalize_merchant : Text → Text
normalize_merchant value = trim (cut_number (collapse_spaces false value))

pub group_key : Text → Transaction → Text
group_key merchant t = merchant ++ lit ":" ++ or_text t.account_id (lit "all")

pub add_to_group : Text → Text → Transaction → List ChargeGroup → List ChargeGroup
add_to_group key merchant t [] =
    record { key = key; merchant = merchant; transactions = t ∷ [] } ∷ []
add_to_group key merchant t (g ∷ gs) =
    if eq g.key key
    then record g { transactions = g.transactions ++ t ∷ [] } ∷ gs
    else g ∷ add_to_group key merchant t gs

pub group_step : List ChargeGroup → Transaction → List ChargeGroup
group_step groups t =
    let merchant = normalize_merchant (or_text t.merchant t.name) in
    if not (ltb_ℤ (get_display_amount t) (pos 0)) || is_empty merchant
    then groups
    else add_to_group (group_key merchant t) merchant t groups

pub group_from : List ChargeGroup → List Transaction → List ChargeGroup
group_from groups [] = groups
group_from groups (t ∷ ts) = group_from (group_step groups t) ts

pub group_charge_transactions : List Transaction → List ChargeGroup
group_charge_transactions ts = group_from [] ts

-- the item at a place of a list
pub number_at : ℕ → List ℕ → ℕ
number_at i [] = 0
number_at zero (n ∷ ns) = n
number_at (suc i) (n ∷ ns) = number_at i ns

-- Twice the median.
pub median2 : List ℕ → ℕ
median2 values =
    let sorted = sort_by leb values in
    let middle = length sorted / 2 in
    if length sorted % 2 == 1
    then 2 * number_at middle sorted
    else if length sorted == 0
    then 0
    else number_at (middle - 1) sorted + number_at middle sorted

pub distance : ℕ → ℕ → ℕ
distance a b = (a - b) + (b - a)

pub cadence_days : Cadence → ℕ
cadence_days weekly = 7
cadence_days biweekly = 14
cadence_days monthly = 30
cadence_days quarterly = 91
cadence_days yearly = 365

pub cadences : List Cadence
cadences = weekly ∷ biweekly ∷ monthly ∷ quarterly ∷ yearly ∷ []

-- Twice the score of a cadence, for twice the median of the intervals.
pub score2 : ℕ → Cadence → ℕ
score2 days2 c = distance days2 (2 * cadence_days c)

-- `score <= Math.max(2, days * 0.12)`
pub is_match : ℕ → Cadence → Bool
is_match days2 c = leb (100 * score2 days2 c) (max 400 (24 * cadence_days c))

pub first_cadence : List Cadence → Option Cadence
first_cadence [] = none
first_cadence (c ∷ cs) = some c

pub closer : ℕ → Cadence → Cadence → Bool
closer days2 c d = leb (score2 days2 c) (score2 days2 d)

pub match_cadence : ℕ → Option Cadence
match_cadence days2 = first_cadence (sort_by (closer days2) (filter (is_match days2) cadences))

-- `Math.abs(interval - days) <= Math.max(2, days * 0.18)`
pub is_stable : Cadence → ℕ → Bool
is_stable c interval =
    leb (100 * distance interval (cadence_days c)) (max 200 (18 * cadence_days c))

pub is_monthly : Cadence → Bool
is_monthly monthly = true
is_monthly _ = false

pub advance : Cadence → Date → Date
advance c d = if is_monthly c then add_months_clamped d 1 else add_days d (cadence_days c)

-- `while (nextDate <= todayKey)`, on fuel
pub advance_past : ℕ → Cadence → Date → Date → Date
advance_past zero c today next_date = next_date
advance_past (suc f) c today next_date =
    let later = advance_past f c today (advance c next_date) in
    if not_after next_date today then later else next_date

-- `slice(-4)`
pub last_four : List ℕ → List ℕ
last_four xs = drop (length xs - 4) xs

pub sum : List ℕ → ℕ
sum [] = 0
sum (n ∷ ns) = n + sum ns

-- `amountDrift <= 0.2`, where no amount is below zero
pub is_steady : List ℕ → Bool
is_steady recent =
    all (λ a. leb (10 * distance (length recent * a) (sum recent)) (2 * sum recent)) recent

pub confidence_of : ℕ → ℕ → ℕ → List ℕ → Confidence
confidence_of count stable intervals recent =
    if leb 3 count && leb (max 1 (intervals - 1)) stable && is_steady recent then high else medium

abbrev pub Dated : Type 0
Dated = Date × Transaction

-- the sort by date
pub dated_before : Dated → Dated → Bool
dated_before x y = not_after x.0 y.0

pub get_intervals : List Dated → List ℕ
get_intervals (x ∷ y ∷ ys) =
    let rest = get_intervals (y ∷ ys) in
    let diff = pos_part (days_between x.0 y.0) in if ltb 0 diff then diff ∷ rest else rest
get_intervals _ = []

pub charge_amount : Dated → ℕ
charge_amount x = let d = get_display_amount x.1 in pos_part d + neg_part d

pub latest : Date → List Dated → Date
latest d [] = d
latest d (x ∷ xs) = latest x.0 xs

-- the first date behind today
pub next_charge_date : Date → List Dated → Cadence → Date
next_charge_date today sorted c =
    let first = advance c (latest today sorted) in
    advance_past (serial today + 1 - serial first) c today first

-- the tests that leave a group out once its cadence is known
pub is_left_out : Date → Date → List Dated → List ℕ → Cadence → Bool
is_left_out today horizon sorted intervals c =
    (length (filter (is_stable c) intervals) == 0)
    || ltb (median2 (last_four (map charge_amount sorted))) 200
    || not (not_after (next_charge_date today sorted c) horizon)

pub prediction_of : Date → Text → List Dated → List ℕ → Cadence → UpcomingChargePrediction
prediction_of today merchant sorted intervals c =
    let stable = filter (is_stable c) intervals in
    let recent = last_four (map charge_amount sorted) in
    record {
      merchant = merchant;
      amount = median2 recent;
      next_date = next_charge_date today sorted c;
      days_until = pos_part (days_between today (next_charge_date today sorted c));
      cadence = c;
      confidence = confidence_of (length sorted) (length stable) (length intervals) recent;
      occurrence_count = length sorted;
    }

pub predict_next :
    Date → Date → Text → List Dated → List ℕ → Cadence → Option UpcomingChargePrediction
predict_next today horizon merchant sorted intervals c =
    if is_left_out today horizon sorted intervals c
    then none
    else some (prediction_of today merchant sorted intervals c)

pub predict_sorted : Date → Date → Text → List Dated → Option UpcomingChargePrediction
predict_sorted today horizon merchant sorted =
    let intervals = get_intervals sorted in
    if ltb (length sorted) 2 || (length intervals == 0)
    then none
    else match_cadence (median2 intervals) >>= λ c.
        predict_next today horizon merchant sorted intervals c

-- The order of the predictions.
pub comes_first : UpcomingChargePrediction → UpcomingChargePrediction → Bool
comes_first p q =
    ltb p.days_until q.days_until || ((p.days_until == q.days_until) && leb q.amount p.amount)

pub add_prediction :
    Option UpcomingChargePrediction → List UpcomingChargePrediction → List UpcomingChargePrediction
add_prediction none ps = ps
add_prediction (some p) ps = p ∷ ps

module _ (local_date : Text → Option Date) where
  -- A text without a date, or of a day that does not exist, is left out.
  pub to_date_key : Text → Option Date
  to_date_key value = if starts_as_date value then parse_date (take 10 value) else local_date value

  pub with_dates : List Transaction → List Dated
  with_dates [] = []
  with_dates (t ∷ ts) = elim (to_date_key t.date) [
    | none ↦ with_dates ts
    | some d ↦ (d, t) ∷ with_dates ts
  ]

  pub predict_groups : Date → Date → List ChargeGroup → List UpcomingChargePrediction
  predict_groups today horizon [] = []
  predict_groups today horizon (g ∷ gs) =
      add_prediction
        (predict_sorted today horizon g.merchant (sort_by dated_before (with_dates g.transactions)))
        (predict_groups today horizon gs)

  pub predict_upcoming_charges : List Transaction → Date → ℕ → List UpcomingChargePrediction
  predict_upcoming_charges ts today horizon_days = take 8 (
      sort_by comes_first
        (predict_groups today (add_days today horizon_days) (group_charge_transactions ts)))
