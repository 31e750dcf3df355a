-- ===== src/Client.antt =====
-- frontend/src/services/ApiClient.ts and the tokens of authService.ts, for one request at a time.
-- `http` stands for the calls of `httpClient`, whose world it threads, and `token_of` reads the
-- token in the answer to a refresh. A run is on fuel: `none` is a run that needs more of it.
pub mod Evaluation
pub mod Retry
pub mod Reauthentication
pub mod Errors
mod Tests
use sumurai.Prelude.{
  ℕ, zero, suc, ◌+◌, ◌*◌, ◌/◌, Bool, true, false, ◌&&◌, ◌||◌, Option, none, some, List, [], ◌∷◌,
  ◌++◌, if◌then◌else◌, any, get_or, ◌>>=◌, ltb, ◌==◌, min, ◌^◌,
}
use sumurai.Prelude.Text.{Text, lit, eq, is_empty, includes, to_lower_case}
use sumurai.Http.{
  ErrorClass, ApiError, Thrown, api_error, plain_error, no_error, Result, ok, throw,
  authentication_error, network_error,
}

pub data Method : Type 0 where
  get post put delete : Method
  other_method : Text → Method

pub record HttpRequest (D : Type 0) : Type 0 where
  pub method : Method
  pub endpoint : Text
  pub body : Option D
  pub authorization : Option Text

pub record Options (D : Type 0) : Type 0 where
  pub method : Method
  pub body : Option D
  pub authorization : Option Text

-- The `auth_token` of the storage, the world of `httpClient`, and how many requests it was sent.
pub record State (W : Type 0) : Type 0 where
  pub token : Option Text
  pub world : W
  pub sent : ℕ

abbrev pub max_retries : ℕ
max_retries = 3

abbrev pub retryable_statuses : List ℕ
retryable_statuses = 502 ∷ 503 ∷ 504 ∷ 429 ∷ []

abbrev pub retryable_errors : List Text
retryable_errors =
    lit "Failed to fetch"
    ∷ lit "Request timeout"
    ∷ lit "The operation was aborted"
    ∷ lit "DNS resolution failed"
    ∷ lit "Network error"
    ∷ lit "Connection reset"
    ∷ lit "Request aborted"
    ∷ []

pub is_retryable_status : ℕ → Bool
is_retryable_status status = any (λ s. s == status) retryable_statuses

pub is_retryable_message : Text → Bool
is_retryable_message message =
    any (λ e. includes (to_lower_case message) (to_lower_case e)) retryable_errors

-- `Math.random()` is k / d.
pub calculate_backoff_delay : ℕ → ℕ → ℕ → ℕ
calculate_backoff_delay attempt k d =
    let exponential_delay = min (1000 * 2 ^ attempt) 5000 in
    exponential_delay + (3 * k * exponential_delay) / (10 * d)

is_authentication_class : ErrorClass → Bool
is_authentication_class ErrorClass.authentication = true
is_authentication_class _ = false

pub is_authentication_error : Thrown → Bool
is_authentication_error (api_error e) = is_authentication_class e.class
is_authentication_error _ = false

pub has_retryable_status : Thrown → Bool
has_retryable_status (api_error e) = is_retryable_status e.status
has_retryable_status _ = false

pub is_retryable_error : Thrown → Bool
is_retryable_error (api_error e) = is_retryable_message e.message
is_retryable_error (plain_error m) = is_retryable_message m
is_retryable_error no_error = false

-- What the `catch` does with an error, in the order of its tests.
pub data Action : Type 0 where
  reauthenticate retry : Action
  rethrow : Thrown → Action

pub outgoing : Thrown → Thrown
outgoing (api_error e) = api_error e
outgoing (plain_error m) =
    if is_retryable_message m then api_error (network_error m) else plain_error m
outgoing no_error = no_error

pub action_on : ℕ → Thrown → Action
action_on attempt e =
    if is_authentication_error e && (attempt == 0)
    then reauthenticate
    else if has_retryable_status e && ltb attempt max_retries
    then retry
    else if is_retryable_error e && ltb attempt max_retries
    then retry
    else rethrow (outgoing e)

abbrev pub refresh_endpoint : Text
refresh_endpoint = lit "/auth/refresh"

abbrev pub bearer : Text → Text
bearer token = lit "Bearer " ++ token

unfoldable pub authentication_required : Thrown
authentication_required = api_error (authentication_error (lit "Authentication required"))

pub authorization_header : Option Text → Option Text → Option Text
authorization_header given token =
    if is_empty (get_or token []) then given else some (bearer (get_or token []))

unfoldable pub clear_token : {W : Type 0} → State W → State W
clear_token s = record s { token = none }

pub store_token : {W : Type 0} → Text → State W → State W
store_token token s = record s { token = some token }

module _ {W D : Type 0} (http : W → HttpRequest D → Result D × W) (token_of : D → Text) where
  send : HttpRequest D → State W → Result D × State W
  send request s =
      let (r, w) = http s.world request in (r, record s { world = w; sent = s.sent + 1 })

  -- a body goes with `POST` and `PUT` only
  request_of : Text → Options D → Method → Option D → State W → HttpRequest D
  request_of endpoint o method body s = record {
    method = method;
    endpoint = endpoint;
    body = body;
    authorization = authorization_header o.authorization s.token;
  }

  by_method : Method → Text → Options D → State W → Result D × State W
  by_method get endpoint o s = send (request_of endpoint o get none s) s
  by_method post endpoint o s = send (request_of endpoint o post o.body s) s
  by_method put endpoint o s = send (request_of endpoint o put o.body s) s
  by_method delete endpoint o s = send (request_of endpoint o delete none s) s
  by_method (other_method m) endpoint o s =
      (throw (plain_error (lit "Unsupported HTTP method: " ++ m)), s)

  pub make_raw_request : Text → Options D → State W → Result D × State W
  make_raw_request endpoint o s = by_method o.method endpoint o s

  -- The recursive calls of `makeRequestWithRetry`.
  abbrev pub Again : Type 0
  Again = Text → Options D → ℕ → State W → Option (Result D × State W)

  -- the Boolean is the test that there is no token
  refresh_unless : Bool → Again → State W → Option (Result D × State W)
  refresh_unless true again s = some (throw (plain_error (lit "No token")), s)
  refresh_unless false again s =
      again refresh_endpoint (record { method = post; body = none; authorization = none }) 0 s

  pub refresh_token : Again → State W → Option (Result D × State W)
  refresh_token again s = refresh_unless (is_empty (get_or s.token [])) again s

  pub after_refresh : Again → Text → Options D → Result D × State W → Option (Result D × State W)
  after_refresh again endpoint o (ok b, s) =
      again endpoint (record o { authorization = some (bearer (token_of b)) }) 0
        (store_token (token_of b) s)
  after_refresh again endpoint o (throw e, s) = some (throw authentication_required, clear_token s)

  -- the Boolean is the test that the request is itself a refresh
  handle_unless : Bool → Again → Text → Options D → State W → Option (Result D × State W)
  handle_unless true again endpoint o s = some (throw authentication_required, clear_token s)
  handle_unless false again endpoint o s =
      refresh_token again s >>= λ answer. after_refresh again endpoint o answer

  pub handle_authentication_error : Again → Text → Options D → State W → Option (Result D × State W)
  handle_authentication_error again endpoint o s =
      handle_unless (eq endpoint refresh_endpoint) again endpoint o s

  pub perform : Again → Text → Options D → ℕ → State W → Action → Option (Result D × State W)
  perform again endpoint o attempt s reauthenticate = handle_authentication_error again endpoint o s
  perform again endpoint o attempt s retry = again endpoint o (attempt + 1) s
  perform again endpoint o attempt s (rethrow e) = some (throw e, s)

  pub settle : Again → Text → Options D → ℕ → Result D × State W → Option (Result D × State W)
  settle again endpoint o attempt (ok b, s) = some (ok b, s)
  settle again endpoint o attempt (throw e, s) =
      perform again endpoint o attempt s (action_on attempt e)

  pub make_request_with_retry : ℕ → Again
  make_request_with_retry zero endpoint o attempt s = none
  make_request_with_retry (suc f) endpoint o attempt s =
      settle (make_request_with_retry f) endpoint o attempt (make_raw_request endpoint o s)

  pub make_request : ℕ → Text → Options D → State W → Option (Result D × State W)
  make_request fuel endpoint o s = make_request_with_retry fuel endpoint o 0 s
