-- ===== src/Dates/Calendar/Serial.antt =====
-- frontend/src/domain/DashboardCalculator.ts: adding days and months adds to the number of the day.
use sumurai.Prelude.{
  ℕ, zero, suc, ◌+◌, ◌-◌, ◌/◌, ◌%◌, ◌≤◌, ◌<◌, ◌≡◌, refl, if◌then◌else◌, ltb, ltb→lt, arith, ap, sym,
  ◌∙◌, Bool-cases, inl, inr,
}
use sumurai.Prelude.Int.{pos_part}
use sumurai.Dates.{Date, is_leap, days_in_month}
use sumurai.Dates.Calendar.{
  next_day, add_days, add_months_clamped, days_before_month, days_before_year, serial, days_between,
}

-- The month and the day exist; the year may have more than four digits.
pub record IsCivil (d : Date) : Type 0 where
  pub month_pos : 1 ≤ d.month
  pub month_le : d.month ≤ 12
  pub day_pos : 1 ≤ d.day
  pub day_le : d.day ≤ days_in_month d.year d.month

pub days_in_month_pos : (y m : ℕ) → 28 ≤ days_in_month y m
unfolding days_in_month
days_in_month_pos y m = ground arith

days_of_year : (y : ℕ) → days_before_month y 12 ≡ (if is_leap y then 366 else 365)
unfolding days_before_month days_in_month
days_of_year y = ground arith

pub days_before_month-suc :
    (y m : ℕ) → days_before_month y (suc m) ≡ days_before_month y m + days_in_month y (suc m)
unfolding days_before_month
days_before_month-suc y m = refl

pub next_day-IsCivil : (d : Date) → IsCivil d → IsCivil (next_day d)
unfolding next_day
next_day-IsCivil d h = elim (Bool-cases (ltb d.day (days_in_month d.year d.month))) [
  | inl p ↦ rw p (record {
    month_pos = h.month_pos;
    month_le = h.month_le;
    day_pos = omega arith;
    day_le = ground arith;
  })
  | inr p ↦ elim (Bool-cases (ltb d.month 12)) [
    | inl q ↦
        rw (p, q)
          (record {
            month_pos = omega arith;
            month_le = ground arith;
            day_pos = omega arith;
            day_le = omega (arith, days_in_month_pos d.year (d.month + 1));
          })
    | inr q ↦
        rw (p, q)
          (record {
            month_pos = omega arith;
            month_le = omega arith;
            day_pos = omega arith;
            day_le = omega (arith, days_in_month_pos (d.year + 1) 1);
          })
  ]
]

-- the number of a day of the month after m
minus_one : (m : ℕ) → suc m - 1 ≡ m
minus_one m = omega arith

pub days_before_next :
    (y m : ℕ) → 1 ≤ m → days_before_month y m ≡ days_before_month y (m - 1) + days_in_month y m
days_before_next y zero h = absurd (omega arith)
days_before_next y (suc m) h = rw (minus_one m) (days_before_month-suc y m)

add_one : (m : ℕ) → m + 1 ≡ suc m
add_one m = omega arith

pub days_before_year-suc :
    (y : ℕ) → days_before_year (y + 1) ≡ days_before_year y + days_before_month y 12
unfolding days_before_year
days_before_year-suc y =
    ap days_before_year (add_one y) ∙ ap (λ n. days_before_year y + n) (sym (days_of_year y))

add_sub_one : (m : ℕ) → m + 1 - 1 ≡ m
add_sub_one m = omega arith

-- the first day of the month after m comes behind the days of m
next_month_parts :
    (y m : ℕ)
    → 1 ≤ m
    → days_before_month y (m + 1 - 1) ≡ days_before_month y (m - 1) + days_in_month y m
next_month_parts y m h = ap (days_before_month y) (add_sub_one m) ∙ days_before_next y m h

next_year_parts :
    (y m : ℕ)
    → 1 ≤ m
    → m ≡ 12
    → days_before_year (y + 1)
      ≡ days_before_year y + days_before_month y (m - 1) + days_in_month y m
next_year_parts y m h e =
    omega (arith, days_before_year-suc y, days_before_next y m h, ap (days_before_month y) e)

no_month : (y : ℕ) → days_before_month y 0 ≡ 0
unfolding days_before_month
no_month y = refl

serial-next_day : (d : Date) → IsCivil d → serial (next_day d) ≡ serial d + 1
unfolding next_day serial
serial-next_day d h = elim (Bool-cases (ltb d.day (days_in_month d.year d.month))) [
  | inl p ↦ rw p (omega arith)
  | inr p ↦ elim (Bool-cases (ltb d.month 12)) [
    | inl q ↦ rw (p, q) (ground (arith, next_month_parts d.year d.month h.month_pos))
    | inr q ↦
        rw (p, q)
          (ground (
            arith,
            next_year_parts d.year d.month h.month_pos (ground arith),
            no_month (d.year + 1),
          ))
  ]
]

-- Adding n days gives a day that exists, and whose number is n more.
pub serial-add_days :
    (d : Date) (n : ℕ) → IsCivil d → IsCivil (add_days d n) × (serial (add_days d n) ≡ serial d + n)
unfolding add_days
serial-add_days d zero h = (h, omega arith)
serial-add_days d (suc n) h =
    let (k, e) = serial-add_days d n h in
    (next_day-IsCivil (add_days d n) k, omega (arith, serial-next_day (add_days d n) k))

add_months_clamped-IsCivil :
    (d : Date) (months : ℕ) → IsCivil d → IsCivil (add_months_clamped d months)
unfolding add_months_clamped
add_months_clamped-IsCivil d months h = record {
  month_pos = omega arith;
  month_le = omega arith;
  day_pos = omega (
    arith,
    days_in_month_pos (add_months_clamped d months).year (add_months_clamped d months).month,
  );
  day_le = omega arith;
}

later_month : (d : Date) → IsCivil d → serial d < serial (add_months_clamped d 1)
unfolding add_months_clamped serial
later_month d h = elim (Bool-cases (ltb d.month 12)) [
  | inl p ↦
      let y : d.year + (d.month - 1 + 1) / 12 ≡ d.year =
        omega (arith, h.month_pos, ltb→lt d.month 12 p) in
      let m : (d.month - 1 + 1) % 12 + 1 ≡ d.month + 1 =
        omega (arith, h.month_pos, ltb→lt d.month 12 p) in
      rw (y, m)
        (omega (
          arith,
          next_month_parts d.year d.month h.month_pos,
          h.day_le,
          days_in_month_pos d.year (d.month + 1),
        ))
  | inr p ↦
      let e : d.month ≡ 12 = ground arith in
      let y : d.year + (d.month - 1 + 1) / 12 ≡ d.year + 1 = omega arith in
      let m : (d.month - 1 + 1) % 12 + 1 ≡ 1 = omega arith in
      rw (y, m)
        (omega (
          arith,
          next_year_parts d.year d.month h.month_pos e,
          h.day_le,
          no_month (d.year + 1),
          days_in_month_pos (d.year + 1) 1,
        ))
]

-- A month later is a day that exists, behind the day and not further in its month.
pub add_months_clamped_one :
    (d : Date)
    → IsCivil d
    → IsCivil (add_months_clamped d 1)
      × (serial d < serial (add_months_clamped d 1))
      × ((add_months_clamped d 1).day ≤ d.day)
unfolding add_months_clamped
add_months_clamped_one d h = (add_months_clamped-IsCivil d 1 h, later_month d h, omega arith)

pub days_between_later :
    (a b : Date) → serial a ≤ serial b → serial a + pos_part (days_between a b) ≡ serial b
unfolding days_between
days_between_later a b h = ground arith
