-- ===== src/Registration/Acceptance.antt =====
-- frontend/src/hooks/useRegistrationValidation.ts: what passes the form.
use sumurai.Prelude.{
  ℕ, ◌≡◌, ◌≤◌, ◌↔◌, inl, inr, refl, ap, ◌∙◌, Bool, true, false, ◌&&◌, Bool-cases, none, [], ◌∷◌,
  ◌++◌, length, any, all, arith, ◌==◌,
}
use sumurai.Prelude.Text.{Text, eq_iff, is_digit, is_empty}
use sumurai.Registration.{
  is_capital, is_special, use_password_validation, is_address_character, matches_last, matches_part,
  validate_email, Form, is_password_match, is_form_valid, validate_form,
}

-- a text of one character at least, with no space and no at sign
abbrev pub IsPart : Text → Type 0
IsPart s = (is_empty s ≡ false) × (all is_address_character s ≡ true)

-- a part, the separator, and then what R says
abbrev pub PartThen : ℕ → (Text → Type 0) → Text → Type 0
PartThen separator R s = (a : Text) × (b : Text) × (s ≡ a ++ separator ∷ b) × IsPart a × R b

-- some name, an at sign, some host, a dot and some domain
abbrev pub IsEmail : Text → Type 0
IsEmail = PartThen b'@' (PartThen b'.' IsPart)

-- what the rules ask of a password
abbrev pub IsStrong : Text → Type 0
IsStrong p =
    (8 ≤ length p) × (any is_capital p ≡ true) × (any is_digit p ≡ true) × (any is_special p ≡ true)

matches_last_iff : (s : Text) → (matches_last s ≡ true) ↔ IsPart s
unfolding matches_last
matches_last_iff [] = ground arith
matches_last_iff (c ∷ []) = ground arith
matches_last_iff (c ∷ d ∷ s) = ground (arith, matches_last_iff (d ∷ s))

module _ (separator : ℕ) (rest : Text → Bool) (R : Text → Type 0)
    (rest_iff : (s : Text) → (rest s ≡ true) ↔ R s) where
  matches_part_split : (s : Text) → matches_part separator rest s ≡ true → PartThen separator R s
  unfolding matches_part
  matches_part_split [] h = absurd (ground arith)
  matches_part_split (c ∷ []) h = absurd (ground arith)
  matches_part_split (c ∷ d ∷ s) h = elim (Bool-cases ((d == separator) && rest s)) [
    | inl e ↦ (
      c ∷ [],
      s,
      ap (λ x. c ∷ x ∷ s) (ground (arith, e)),
      (refl, ground arith),
      (rest_iff s).0 (ground arith),
    )
    | inr e ↦
        let (a, b, p, (q, k), r) = matches_part_split (d ∷ s) (ground arith) in
        (c ∷ a, b, ap (λ t. c ∷ t) p, (refl, ground arith), r)
  ]

  matches_part_join :
      (a b : Text) → IsPart a → R b → matches_part separator rest (a ++ separator ∷ b) ≡ true
  unfolding matches_part
  matches_part_join [] b (h, k) r = absurd (ground arith)
  matches_part_join (c ∷ []) b (h, k) r = ground (arith, (rest_iff b).1 r)
  matches_part_join (c ∷ d ∷ a) b (h, k) r =
      ground (arith, matches_part_join (d ∷ a) b (refl, ground (arith, k)) r)

  matches_part_iff : (s : Text) → (matches_part separator rest s ≡ true) ↔ PartThen separator R s
  matches_part_iff s = (
    matches_part_split s,
    λ (a, b, e, p, r). ap (matches_part separator rest) e ∙ matches_part_join a b p r,
  )

use_password_validation_iff :
    (p : Text) → ((use_password_validation p).is_valid ≡ true) ↔ IsStrong p
unfolding use_password_validation
use_password_validation_iff p = ground arith

validate_email_iff : (s : Text) → (validate_email s ≡ true) ↔ IsEmail s
unfolding validate_email
validate_email_iff s =
    matches_part_iff b'@' (matches_part b'.' matches_last) (PartThen b'.' IsPart)
      (matches_part_iff b'.' matches_last IsPart matches_last_iff) s

accepted_iff : (f : Form) → (validate_form f ≡ none) ↔ (is_form_valid f ≡ true)
unfolding validate_form is_form_valid
accepted_iff f = ground arith

valid_iff :
    (f : Form)
    → (is_form_valid f ≡ true) ↔ (
        (validate_email f.email ≡ true)
        × ((use_password_validation f.password).is_valid ≡ true)
        × (is_password_match f ≡ true))
unfolding is_form_valid
valid_iff f = ground arith

match_iff : (f : Form) → (is_password_match f ≡ true) ↔ (f.password ≡ f.confirm_password)
unfolding is_password_match
match_iff f = eq_iff f.password f.confirm_password

-- The form reports no error exactly of an address with a name, an at sign, a host, a dot and a domain,
-- each of them there and free of spaces and at signs, with a password of eight characters at least,
-- among them a capital letter, a digit and a special character, that is given twice the same.
pub validate_form_iff :
    (f : Form)
    → (validate_form f ≡ none)
      ↔ (IsEmail f.email × IsStrong f.password × (f.password ≡ f.confirm_password))
validate_form_iff f = (
  λ h.
      let (e, p, m) = (valid_iff f).0 ((accepted_iff f).0 h) in
      (
        (validate_email_iff f.email).0 e,
        (use_password_validation_iff f.password).0 p,
        (match_iff f).0 m,
      ),
  λ (e, p, m). (accepted_iff f).1 (
      (valid_iff f).1 (
        (validate_email_iff f.email).1 e,
        (use_password_validation_iff f.password).1 p,
        (match_iff f).1 m,
      )),
)
