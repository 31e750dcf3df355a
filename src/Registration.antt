-- ===== src/Registration.antt =====
-- frontend/src/hooks/usePasswordValidation.ts and useRegistrationValidation.ts: what the form of a new
-- user accepts.
pub mod Acceptance
mod Tests
use sumurai.Prelude.{
  ℕ, Bool, true, false, not, ◌&&◌, ◌||◌, Option, none, some, List, [], ◌∷◌, length, any, leb,
  if◌then◌else◌, ◌==◌,
}
use sumurai.Prelude.Text.{Text, lit, eq, is_space, is_digit, is_empty}

pub record PasswordValidation : Type 0 where
  pub min_length : Bool
  pub has_capital : Bool
  pub has_number : Bool
  pub has_special : Bool
  pub is_valid : Bool

pub is_capital : ℕ → Bool
is_capital c = leb b'A' c && leb c b'Z'

-- the characters of the class of special ones
pub special_characters : Text
special_characters = lit "!@#$%^&*(),.?\":{}|<>"

pub is_special : ℕ → Bool
is_special c = any (λ d. d == c) special_characters

pub use_password_validation : Text → PasswordValidation
use_password_validation password =
    let min_length = leb 8 (length password) in
    let has_capital = any is_capital password in
    let has_number = any is_digit password in
    let has_special = any is_special password in
    record {
      min_length = min_length;
      has_capital = has_capital;
      has_number = has_number;
      has_special = has_special;
      is_valid = min_length && has_capital && has_number && has_special;
    }

-- `[^\s@]`
pub is_address_character : ℕ → Bool
is_address_character c = not (is_space c) && not (c == b'@')

-- `[^\s@]+$`
pub matches_last : Text → Bool
matches_last [] = false
matches_last (c ∷ []) = is_address_character c
matches_last (c ∷ d ∷ s) = is_address_character c && matches_last (d ∷ s)

-- `[^\s@]+` and then the separator and the rest, at every place where it can stand
pub matches_part : ℕ → (Text → Bool) → Text → Bool
matches_part separator rest [] = false
matches_part separator rest (c ∷ []) = false
matches_part separator rest (c ∷ d ∷ s) =
    is_address_character c && (((d == separator) && rest s) || matches_part separator rest (d ∷ s))

-- `/^[^\s@]+@[^\s@]+\.[^\s@]+$/`
pub validate_email : Text → Bool
validate_email email = matches_part b'@' (matches_part b'.' matches_last) email

pub record Form : Type 0 where
  pub email : Text
  pub password : Text
  pub confirm_password : Text

pub is_password_match : Form → Bool
is_password_match f = eq f.password f.confirm_password

pub is_form_valid : Form → Bool
is_form_valid f =
    validate_email f.email && (use_password_validation f.password).is_valid && is_password_match f

pub validate_form : Form → Option Text
validate_form f =
    if not (validate_email f.email)
    then some (lit "Please enter a valid email address")
    else if not (use_password_validation f.password).is_valid
    then some (lit "Password does not meet requirements")
    else if not (is_password_match f)
    then some (lit "Passwords do not match")
    else none
