-- ===== src/Dates/Evaluation.antt =====
-- What a run of the date functions unfolds, for tests.
use sumurai.Prelude.Text.{compare_text, le_text}
use sumurai.Dates.{
  is_leap, days_in_month, digits_of, number_text, pad_start_two, date_text, two_digits, four_digits,
  iso, is_date, checked, two_value, parse_date, read_digits, unsigned_prefix, signed_prefix,
  parse_int,
}

unfoldable pub dates : Unit {0}
unfolding compare_text le_text is_leap days_in_month digits_of number_text pad_start_two date_text
    two_digits four_digits iso is_date checked two_value parse_date read_digits unsigned_prefix
    signed_prefix parse_int
dates = tt
