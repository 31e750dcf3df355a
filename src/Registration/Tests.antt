-- ===== src/Registration/Tests.antt =====
-- Runs of the form of a new user.
use sumurai.Prelude.{◌≡◌, ◌↔◌, refl, false, none}
use sumurai.Prelude.Text.{lit, eq}
use sumurai.Registration.{
  Form, special_characters, is_special, is_capital, use_password_validation, is_address_character,
  matches_last, matches_part, validate_email, is_password_match, validate_form,
}
use sumurai.Registration.Acceptance.{IsEmail, IsStrong, validate_form_iff}

abbrev form : Form
form = record {
  email = lit "ann.lee@mail.example.org";
  password = lit "Secret12!";
  confirm_password = lit "Secret12!";
}

validate_form_iff_example :
    (validate_form form ≡ none)
    ↔ (IsEmail form.email × IsStrong form.password × (form.password ≡ form.confirm_password))
validate_form_iff_example = validate_form_iff form

accepted_run : validate_form form ≡ none
unfolding validate_form validate_email matches_part matches_last is_address_character
    use_password_validation is_capital is_special special_characters is_password_match eq
accepted_run = refl

two_signs_run : validate_email (lit "ann@lee@example.org") ≡ false
unfolding validate_email matches_part matches_last is_address_character
two_signs_run = refl

no_dot_run : validate_email (lit "ann@example") ≡ false
unfolding validate_email matches_part matches_last is_address_character
no_dot_run = refl
