-- ===== src/Dates.antt =====
-- Dates as the frontend writes and compares them: the parts of JavaScript's `Date`, `String(n)` and
-- `padStart` that frontend/src/domain/BudgetCalculator.ts and frontend/src/utils/dateRanges.ts use.
-- A month of a date is 1 to 12; the month that `Date` takes and gives is one less.
pub mod Evaluation
mod Tests
pub mod Order
pub mod Calendar
pub mod Parsing
use sumurai.Prelude.{
  ℕ, zero, suc, ◌+◌, ◌-◌, ◌*◌, ◌/◌, ◌%◌, ◌≤◌, ◌<◌, Bool, true, false, not, ◌&&◌, ◌||◌, Option, none,
  some, List, [], ◌∷◌, ◌++◌, if◌then◌else◌, ltb, ◌>>=◌, leb, ◌==◌,
}
use sumurai.Prelude.Text.{Text, is_digit, is_space}

pub record Date : Type 0 where
  pub year : ℕ
  pub month : ℕ
  pub day : ℕ

abbrev pub date : ℕ → ℕ → ℕ → Date
date a b c = record { year = a; month = b; day = c }

pub is_leap : ℕ → Bool
is_leap y = (y % 4 == 0) && (not (y % 100 == 0) || (y % 400 == 0))

-- `new Date(y, m, 0).getDate()`, the last day of month m, where January is 1
unfoldable pub days_in_month : ℕ → ℕ → ℕ
days_in_month y m =
    if (m == 11) || (m == 9) || (m == 6) || (m == 4)
    then 30
    else if not (m == 2)
    then 31
    else if is_leap y
    then 29
    else 28

pub record IsValid (d : Date) : Type 0 where
  pub year_lt : d.year < 10_000
  pub month_pos : 1 ≤ d.month
  pub month_le : d.month ≤ 12
  pub day_pos : 1 ≤ d.day
  pub day_le : d.day ≤ days_in_month d.year d.month

-- `String(n)` below 10 ^ 21, from where on JavaScript writes an exponent
digits_of : ℕ → ℕ → Text
digits_of zero n = []
digits_of (suc f) n =
    let front = digits_of f (n / 10) in
    if ltb n 10 then (48 + n) ∷ [] else front ++ (48 + n % 10) ∷ []

pub number_text : ℕ → Text
number_text n = digits_of 21 n

-- `s.padStart(2, '0')`
pub pad_start_two : Text → Text
pad_start_two [] = b'0' ∷ b'0' ∷ []
pad_start_two (c ∷ []) = b'0' ∷ c ∷ []
pad_start_two (c ∷ d ∷ s) = c ∷ d ∷ s

-- `${year}-${String(month).padStart(2, '0')}-${String(day).padStart(2, '0')}`
pub date_text : ℕ → ℕ → ℕ → Text
date_text y m d =
    number_text y
    ++ (b'-' ∷ (pad_start_two (number_text m) ++ (b'-' ∷ pad_start_two (number_text d))))

pub two_digits : ℕ → Text
two_digits n = (48 + n / 10) ∷ (48 + n % 10) ∷ []

pub four_digits : ℕ → Text
four_digits n = two_digits (n / 100) ++ two_digits (n % 100)

-- The first ten characters of `toISOString`, for the years 0 to 9999.
pub iso : Date → Text
iso d = four_digits d.year ++ (b'-' ∷ (two_digits d.month ++ (b'-' ∷ two_digits d.day)))

is_date : Date → Bool
is_date d =
    leb 1 d.month && leb d.month 12 && leb 1 d.day && leb d.day (days_in_month d.year d.month)

checked : Date → Option Date
checked d = if is_date d then some d else none

two_value : ℕ → ℕ → Option ℕ
two_value a b = if is_digit a && is_digit b then some ((a - 48) * 10 + (b - 48)) else none

-- `new Date(value)` of the standard library, on a text `YYYY-MM-DD` of a day that exists, the form in
-- which the backend sends the date of a transaction. `none` is an invalid date, whose `toISOString`
-- throws; every other text counts as one, though browsers read some of them.
pub parse_date : Text → Option Date
parse_date (y1 ∷ y2 ∷ y3 ∷ y4 ∷ h ∷ m1 ∷ m2 ∷ k ∷ d1 ∷ d2 ∷ []) = do
  century ← two_value y1 y2
  years ← two_value y3 y4
  month ← two_value m1 m2
  day ← two_value d1 d2
  if (h == b'-') && (k == b'-') then checked (date (century * 100 + years) month day) else none
parse_date _ = none

-- the digits that `parseInt` reads, from the value of those before
read_digits : ℕ → Text → ℕ
read_digits n [] = n
read_digits n (c ∷ s) =
    let rest = read_digits (n * 10 + (c - 48)) s in if is_digit c then rest else n

-- from the first character that is no white space on; a sign can only be `+`, since the program
-- splits its text at every `-`
unsigned_prefix : Text → Option ℕ
unsigned_prefix [] = none
unsigned_prefix (c ∷ s) = if is_digit c then some (read_digits 0 (c ∷ s)) else none

signed_prefix : Text → Option ℕ
signed_prefix [] = none
signed_prefix (c ∷ s) = if c == b'+' then unsigned_prefix s else unsigned_prefix (c ∷ s)

-- `parseInt(s, 10)`; `none` is NaN
pub parse_int : Text → Option ℕ
parse_int [] = none
parse_int (c ∷ s) = let rest = parse_int s in if is_space c then rest else signed_prefix (c ∷ s)
