-- ===== src/Http/Responses.antt =====
-- frontend/src/services/boundaries/FetchHttpClient.ts: the errors of a response, and the addresses.
use sumurai.Prelude.{
  ℕ, ◌≡◌, ◌↔◌, refl, Bool, true, false, Option, some, [], ◌∷◌, arith, ◌==◌, get_or, if◌then◌else◌,
}
use sumurai.Prelude.Text.{Text, lit, is_empty}
use sumurai.Http.{
  ErrorClass, Response, create_api_error, error_of_status, authentication_error, validation_error,
  network_error, server_error, conflict_error, not_found_error, forbidden_error, plain_api_error,
  trim_slashes, normalize_base_url,
}

-- An error response becomes an error with the status of the response, and one of class
-- `AuthenticationError` exactly when the status is 401.
pub create_api_error-status :
    {A : Type 0} (r : Response A)
    → ((create_api_error r).status ≡ r.status)
      × (((create_api_error r).class ≡ ErrorClass.authentication) ↔ (r.status ≡ 401))
unfolding create_api_error error_of_status authentication_error validation_error network_error
    server_error conflict_error not_found_error forbidden_error plain_api_error
create_api_error-status r = ground arith

abbrev pub ends_with_slash : Text → Bool
ends_with_slash [] = false
ends_with_slash (c ∷ []) = c == b'/'
ends_with_slash (c ∷ d ∷ s) = ends_with_slash (d ∷ s)

ends-cons_trimmed :
    (c : ℕ) (rest : Text)
    → ends_with_slash rest ≡ false
    → ends_with_slash (if is_empty rest then (if c == b'/' then [] else c ∷ []) else c ∷ rest)
      ≡ false
ends-cons_trimmed c [] h = ground arith
ends-cons_trimmed c (d ∷ r) h = h

ends-trim_slashes : (s : Text) → ends_with_slash (trim_slashes s) ≡ false
unfolding trim_slashes
ends-trim_slashes [] = refl
ends-trim_slashes (c ∷ s) = ends-cons_trimmed c (trim_slashes s) (ends-trim_slashes s)

trim_slashes_id : (s : Text) → ends_with_slash s ≡ false → trim_slashes s ≡ s
unfolding trim_slashes
trim_slashes_id [] h = refl
trim_slashes_id (c ∷ []) h = ground arith
trim_slashes_id (c ∷ d ∷ s) h = rw (trim_slashes_id (d ∷ s) h) refl

-- A text that is not empty and does not end in a slash.
abbrev pub IsTrimmed : Text → Type 0
IsTrimmed t = (is_empty t ≡ false) × (ends_with_slash t ≡ false)

or_base-IsTrimmed :
    (t : Text) → ends_with_slash t ≡ false → IsTrimmed (if is_empty t then lit "/api" else t)
or_base-IsTrimmed [] h = (refl, refl)
or_base-IsTrimmed (c ∷ s) h = (refl, h)

if-IsTrimmed : (b : Bool) (t : Text) → IsTrimmed t → IsTrimmed (if b then lit "/api" else t)
if-IsTrimmed true t h = (refl, refl)
if-IsTrimmed false t h = h

normalize_base_url-IsTrimmed : (base : Option Text) → IsTrimmed (normalize_base_url base)
unfolding normalize_base_url
normalize_base_url-IsTrimmed base =
    if-IsTrimmed (is_empty (get_or base [])) _
      (or_base-IsTrimmed _ (ends-trim_slashes (get_or base [])))

normalize_trimmed :
    (s : Text) → is_empty s ≡ false → ends_with_slash s ≡ false → normalize_base_url (some s) ≡ s
unfolding normalize_base_url
normalize_trimmed s h k = rw (h, trim_slashes_id s k, h) refl

-- The base address is never empty and never ends in a slash, and normalizing it again changes
-- nothing.
pub normalize_base_url_idem :
    (base : Option Text)
    → IsTrimmed (normalize_base_url base)
      × (normalize_base_url (some (normalize_base_url base)) ≡ normalize_base_url base)
normalize_base_url_idem base =
    let (h, k) = normalize_base_url-IsTrimmed base in
    ((h, k), normalize_trimmed (normalize_base_url base) h k)
