-- ===== src/BudgetList/Months/Range.antt =====
-- frontend/src/features/budgets/hooks/useBudgets.ts, with BudgetCalculator.ts: the days that the
-- budgets of a month count.
use sumurai.Prelude.{
  ℕ, ◌+◌, ◌-◌, ◌≤◌, ◌<◌, ◌≡◌, refl, ap, ◌∙◌, Bool, true, false, ◌&&◌, some, ◌==◌, arith,
}
use sumurai.Types.{Transaction}
use sumurai.Dates.{Date, date, days_in_month, iso, IsValid}
use sumurai.Dates.Order.{not_after, le_text-iso}
use sumurai.Dates.Parsing.{parse_date-iso}
use sumurai.Dates.Calendar.{next_day}
use sumurai.Dates.Calendar.Serial.{IsCivil, next_day-IsCivil, days_in_month_pos}
use sumurai.Budgets.{iso_day, in_range}
use sumurai.BudgetList.Months.{
  Month, go_to_previous_month, go_to_next_month, day_before, utc_day, get_month_range,
}

-- whether a date is in the month
abbrev pub in_month : Month → Date → Bool
in_month m d = (d.year == m.year) && (d.month == m.month + 1)

abbrev first_day : Month → Date
first_day m = date m.year (m.month + 1) 1

abbrev last_day : Month → Date
last_day m = date m.year (m.month + 1) (days_in_month m.year (m.month + 1))

days_of_same :
    (d : Date) (y m : ℕ)
    → d.year ≡ y
    → d.month ≡ m
    → days_in_month d.year d.month ≡ days_in_month y m
days_of_same d y m h k = cc

december : (y : ℕ) → days_in_month y 12 ≡ 31
unfolding days_in_month
december y = ground arith

month_days :
    (m : Month) (d : Date)
    → IsCivil d
    → (not_after (first_day m) d && not_after d (last_day m)) ≡ in_month m d
month_days m d v =
    ground
      (arith, days_of_same d m.year (m.month + 1), v.day_pos, v.day_le, v.month_pos, v.month_le)

after_first :
    (m : Month) (d : Date)
    → IsValid d
    → 1 ≤ m.year
    → m.month < 12
    → not_after (day_before (first_day m)) d ≡ not_after (first_day m) (next_day d)
unfolding day_before next_day
after_first m d v h k = ground (
  arith,
  days_of_same d m.year (m.month + 1 - 1),
  days_of_same d (m.year - 1) 12,
  december (m.year - 1),
  december d.year,
  v.day_pos,
  v.day_le,
  v.month_pos,
  v.month_le,
)

before_last :
    (m : Month) (d : Date)
    → IsValid d
    → m.month < 12
    → not_after d (day_before (last_day m)) ≡ not_after (next_day d) (last_day m)
unfolding day_before next_day
before_last m d v k = ground (
  arith,
  days_of_same d m.year (m.month + 1),
  days_in_month_pos m.year (m.month + 1),
  days_in_month_pos d.year d.month,
  v.day_pos,
  v.day_le,
  v.month_pos,
  v.month_le,
)

IsCivil-of : (d : Date) → IsValid d → IsCivil d
IsCivil-of d v = record {
  month_pos = v.month_pos;
  month_le = v.month_le;
  day_pos = v.day_pos;
  day_le = v.day_le;
}

-- a test on the texts of two dates is one on the dates
in_range-iso :
    (t : Transaction) (a b d : Date)
    → IsValid d
    → t.date ≡ iso d
    → in_range (iso a) (iso b) t ≡ some (not_after a d && not_after d b)
unfolding in_range iso_day
in_range-iso t a b d v e = rw (e, parse_date-iso d v, le_text-iso a d, le_text-iso d b) refl

-- The budgets of a month count the transactions of its days, as long as the clock is not ahead of UTC
-- on its first and its last day. When it is ahead on both, they count those whose next day is in the
-- month: the last day of the month before is counted, and the last day of the month is not.
pub get_month_range_lem :
    (m : Month) (t : Transaction) (d : Date)
    → IsValid d
    → t.date ≡ iso d
    → 1 ≤ m.year
    → m.month < 12
    → (in_range (get_month_range false false m).start (get_month_range false false m).end t
        ≡ some (in_month m d))
      × (in_range (get_month_range true true m).start (get_month_range true true m).end t
          ≡ some (in_month m (next_day d)))
unfolding get_month_range utc_day
get_month_range_lem m t d v e h k = (
  in_range-iso t (first_day m) (last_day m) d v e ∙ ap some (month_days m d (IsCivil-of d v)),
  in_range-iso t (day_before (first_day m)) (day_before (last_day m)) d v e
      ∙ ap some (
          rw (after_first m d v h k, before_last m d v k)
            (month_days m (next_day d) (next_day-IsCivil d (IsCivil-of d v)))),
)

-- Going to a neighbouring month and back shows the same month, from the year 1 on.
pub go_to_next_month-go_to_previous_month :
    (m : Month)
    → 1 ≤ m.year
    → m.month < 12
    → (go_to_next_month (go_to_previous_month m) ≡ m)
      × (go_to_previous_month (go_to_next_month m) ≡ m)
unfolding go_to_next_month go_to_previous_month
go_to_next_month-go_to_previous_month m h k = ground arith
