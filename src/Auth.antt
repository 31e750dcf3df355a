-- ===== src/Auth.antt =====
-- frontend/src/services/authService.ts: the calls of a session on top of the client, without the spans
-- of telemetry and the hash of the token. `Refresh` has the shared refresh.
pub mod Calls
pub mod Refresh
mod Tests
use sumurai.Prelude.{ℕ, [], Bool, true, false, Option, none, some, if◌then◌else◌, get_or, ◌>>=◌}
use sumurai.Prelude.Text.{Text, lit, is_empty, includes}
use sumurai.Http.{Thrown, api_error, plain_error, no_error, Result, ok, throw}
use sumurai.Client.{
  HttpRequest, Options, get, post, put, State, is_authentication_error, clear_token, make_request,
}

-- `error instanceof Error && error.message.includes(part)`
pub says : Text → Thrown → Bool
says part (api_error e) = includes e.message part
says part (plain_error m) = includes m part
says part no_error = false

-- what `login` throws for an error of its request
pub login_error : Thrown → Thrown
login_error e =
    if is_authentication_error e
    then plain_error (lit "Invalid email or password")
    else if says (lit "500") e
    then plain_error (lit "Server error. Please try again later.")
    else e

pub register_error : Thrown → Thrown
register_error e =
    if says (lit "409") e
    then plain_error (lit "Email already exists")
    else if says (lit "400") e
    then plain_error (lit "Invalid registration data")
    else e

pub map_error : {A W : Type 0} → (Thrown → Thrown) → Result A × State W → Result A × State W
map_error f (ok a, s) = (ok a, s)
map_error f (throw e, s) = (throw (f e), s)

pub validated : {A W : Type 0} → Result A × State W → Bool × State W
validated (ok a, s) = (true, s)
validated (throw e, s) = if says (lit "401") e then (false, clear_token s) else (false, s)

module _ {W D : Type 0} (http : W → HttpRequest D → Result D × W) (token_of : D → Text) where
  pub login : ℕ → D → State W → Option (Result D × State W)
  login fuel credentials s = do
    answer ←
        make_request http token_of fuel (lit "/auth/login")
          (record { method = post; body = some credentials; authorization = none }) s
    some (map_error login_error answer)

  pub register : ℕ → D → State W → Option (Result D × State W)
  register fuel credentials s = do
    answer ←
        make_request http token_of fuel (lit "/auth/register")
          (record { method = post; body = some credentials; authorization = none }) s
    some (map_error register_error answer)

  pub logout : ℕ → State W → Option (Result D × State W)
  logout fuel s = do
    answer ←
        make_request http token_of fuel (lit "/auth/logout")
          (record { method = post; body = none; authorization = none }) s
    some (answer.0, clear_token answer.1)

  -- the request, where there is a token
  pub validate_token : ℕ → State W → Option (Bool × State W)
  validate_token fuel s = do
    answer ←
        make_request http token_of fuel (lit "/providers/status")
          (record { method = get; body = none; authorization = none }) s
    some (validated answer)

  pub validate_session : ℕ → State W → Option (Bool × State W)
  validate_session fuel s = elim (is_empty (get_or s.token [])) [
    | true ↦ some (false, s)
    | false ↦ validate_token fuel s
  ]

  pub complete_onboarding : ℕ → State W → Option (Result D × State W)
  complete_onboarding fuel s =
      make_request http token_of fuel (lit "/auth/onboarding/complete")
        (record { method = put; body = none; authorization = none }) s
