-- ===== src/Dates/Parsing.antt =====
-- Reading back the text of a date.
use sumurai.Prelude.{
  ℕ, ◌+◌, ◌*◌, ◌/◌, ◌%◌, ◌≤◌, ◌<◌, ◌≡◌, refl, ◌&&◌, Option, none, some, [], ◌∷◌, arith, ◌==◌,
  if◌then◌else◌, ◌>>=◌,
}
use sumurai.Prelude.Text.{Text}
use sumurai.Dates.{
  Date, date, IsValid, days_in_month, iso, two_digits, four_digits, is_date, checked, two_value,
  parse_date,
}

pub days_in_month-le : (y m : ℕ) → days_in_month y m ≤ 31
unfolding days_in_month
days_in_month-le y m = ground arith

checked_valid : (d : Date) → IsValid d → checked d ≡ some d
unfolding checked is_date
checked_valid d v = ground arith

checked_sound : (d e : Date) → checked d ≡ some e → d.year < 10_000 → (d ≡ e) × IsValid e
unfolding checked is_date
checked_sound d e h y = ground arith

two_value-two_digits : (n : ℕ) → n < 100 → two_value (48 + n / 10) (48 + n % 10) ≡ some n
unfolding two_value
two_value-two_digits n h = ground arith

two_value_sound :
    (a b n : ℕ) → two_value a b ≡ some n → (n < 100) × (48 + n / 10 ≡ a) × (48 + n % 10 ≡ b)
unfolding two_value
two_value_sound a b n h = ground arith

-- A valid date is read back from its text.
pub parse_date-iso : (d : Date) → IsValid d → parse_date (iso d) ≡ some d
unfolding parse_date iso four_digits two_digits
parse_date-iso d v =
    let fits = days_in_month-le d.year d.month in
    let same : d.year / 100 * 100 + d.year % 100 ≡ d.year = omega arith in
    rw
      (
        two_value-two_digits (d.year / 100) (omega (arith, v.year_lt)),
        two_value-two_digits (d.year % 100) (omega arith),
        two_value-two_digits d.month (omega (arith, v.month_le)),
        two_value-two_digits d.day (omega (arith, v.day_le, fits)),
      )
      (rw same (checked_valid d v))

finish_sound :
    (h k y m n : ℕ) (d : Date)
    → (if (h == b'-') && (k == b'-') then checked (date y m n) else none) ≡ some d
    → y < 10_000
    → (h ≡ b'-') × (k ≡ b'-') × (date y m n ≡ d) × IsValid d
finish_sound h k y m n d e small = ground (arith, checked_sound (date y m n) d)

-- The parts that a text was read as.
parts_sound :
    (c? y? m? n? : Option ℕ) (h k : ℕ) (d : Date)
    → (c? >>= λ c. y? >>= λ y. m? >>= λ m.
        n? >>= λ n. if (h == b'-') && (k == b'-') then checked (date (c * 100 + y) m n) else none)
      ≡ some d
    → (c : ℕ) × (y : ℕ) × (m : ℕ) × (n : ℕ) × (c? ≡ some c)
      × (y? ≡ some y)
      × (m? ≡ some m)
      × (n? ≡ some n)
      × ((if (h == b'-') && (k == b'-') then checked (date (c * 100 + y) m n) else none) ≡ some d)
parts_sound (some c) (some y) (some m) (some n) h k d e = (c, y, m, n, refl, refl, refl, refl, e)
parts_sound (some c) (some y) (some m) none h k d e = cc
parts_sound (some c) (some y) none _ h k d e = cc
parts_sound (some c) none _ _ h k d e = cc
parts_sound none _ _ _ h k d e = cc

-- A text that is read as a date is the text of that date, and the date is valid.
pub parse_date_sound : (t : Text) (d : Date) → parse_date t ≡ some d → (iso d ≡ t) × IsValid d
unfolding parse_date iso four_digits two_digits
parse_date_sound (y1 ∷ y2 ∷ y3 ∷ y4 ∷ h ∷ m1 ∷ m2 ∷ k ∷ d1 ∷ d2 ∷ []) d e =
    let (c, y, m, n, ec, ey, em, en, last) =
      parts_sound (two_value y1 y2) (two_value y3 y4) (two_value m1 m2) (two_value d1 d2) h k d e in
    let sc = two_value_sound y1 y2 c ec in
    let sy = two_value_sound y3 y4 y ey in
    let sm = two_value_sound m1 m2 m em in
    let sn = two_value_sound d1 d2 n en in
    let (eh, ek, same, valid) = finish_sound h k (c * 100 + y) m n d last (omega arith) in
    let front : (c * 100 + y) / 100 ≡ c = omega arith in
    let back : (c * 100 + y) % 100 ≡ y = omega arith in
    rw (← same)
      (rw (front, back) (cc (sc.1, sc.2, sy.1, sy.2, sm.1, sm.2, sn.1, sn.2)), rw same valid)
parse_date_sound _ d h = cc
