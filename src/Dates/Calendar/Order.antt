-- ===== src/Dates/Calendar/Order.antt =====
-- The order of dates is the order of their numbers.
use sumurai.Prelude.{ℕ, zero, suc, ◌+◌, ◌-◌, ◌≤◌, ◌<◌, ◌≡◌, true, arith, ap, ◌↔◌}
use sumurai.Dates.{Date}
use sumurai.Dates.Order.{not_after}
use sumurai.Dates.Calendar.{days_before_month, days_before_year, serial}
use sumurai.Dates.Calendar.Serial.{
  IsCivil, days_before_next, days_before_year-suc, days_before_month-suc,
}

add_zero : (n : ℕ) → 0 + n ≡ n
add_zero n = omega arith

add_suc : (k n : ℕ) → suc k + n ≡ k + n + 1
add_suc k n = omega arith

suc_add : (k n : ℕ) → suc k + n ≡ suc (k + n)
suc_add k n = omega arith

sub_add : (m n : ℕ) → m ≤ n → n - m + m ≡ n
sub_add m n h = omega arith

days_before_year_grows : (y k : ℕ) → days_before_year y ≤ days_before_year (k + y)
days_before_year_grows y zero = omega (arith, ap days_before_year (add_zero y))
days_before_year_grows y (suc k) = omega (
  arith,
  days_before_year_grows y k,
  days_before_year-suc (k + y),
  ap days_before_year (add_suc k y),
)

days_before_month_grows : (y m k : ℕ) → days_before_month y m ≤ days_before_month y (k + m)
days_before_month_grows y m zero = omega (arith, ap (days_before_month y) (add_zero m))
days_before_month_grows y m (suc k) = omega (
  arith,
  days_before_month_grows y m k,
  days_before_month-suc y (k + m),
  ap (days_before_month y) (suc_add k m),
)

days_before_year_mono : (y z : ℕ) → y ≤ z → days_before_year y ≤ days_before_year z
days_before_year_mono y z h =
    omega (arith, days_before_year_grows y (z - y), ap days_before_year (sub_add y z h))

days_before_month_mono : (y m n : ℕ) → m ≤ n → days_before_month y m ≤ days_before_month y n
days_before_month_mono y m n h =
    omega (arith, days_before_month_grows y m (n - m), ap (days_before_month y) (sub_add m n h))

-- A day comes before the next year,
serial_year : (d : Date) → IsCivil d → serial d ≤ days_before_year (d.year + 1)
unfolding serial
serial_year d h = omega (
  arith,
  days_before_year-suc d.year,
  days_before_next d.year d.month h.month_pos,
  days_before_month_mono d.year d.month 12 h.month_le,
  h.day_le,
)

year_serial : (d : Date) → IsCivil d → days_before_year d.year < serial d
unfolding serial
year_serial d h = omega (arith, h.day_pos)

later_year : (d e : Date) → IsCivil d → IsCivil e → d.year < e.year → serial d < serial e
later_year d e h k l = omega (
  arith,
  serial_year d h,
  year_serial e k,
  days_before_year_mono (d.year + 1) e.year (omega arith),
)

later_month :
    (d e : Date) → IsCivil d → IsCivil e → d.year ≡ e.year → d.month < e.month → serial d < serial e
unfolding serial
later_month d e h k p l = omega (
  arith,
  days_before_next d.year d.month h.month_pos,
  h.day_le,
  k.day_pos,
  days_before_month_mono d.year d.month (e.month - 1) (omega arith),
  ap days_before_year p,
  ap (λ y. days_before_month y (e.month - 1)) p,
)

same_month :
    (d e : Date) → d.year ≡ e.year → d.month ≡ e.month → serial d + e.day ≡ serial e + d.day
unfolding serial
same_month d e p q = omega (
  arith,
  ap days_before_year p,
  ap (λ y. days_before_month y (d.month - 1)) p,
  ap (λ m. days_before_month e.year (m - 1)) q,
)

-- Of two days that exist, one is not after the other exactly when its number is not greater.
pub not_after_iff :
    (d e : Date) → IsCivil d → IsCivil e → (not_after d e ≡ true) ↔ (serial d ≤ serial e)
not_after_iff d e h k = ground (
  arith,
  later_year d e h k,
  later_year e d k h,
  later_month d e h k,
  later_month e d k h,
  same_month d e,
)
