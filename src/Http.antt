-- ===== src/Http.antt =====
-- frontend/src/services/boundaries/errors.ts and FetchHttpClient.ts: the errors that are thrown and
-- how the answer of `fetch` becomes a result. The answer itself is an argument.
pub mod Responses
mod Tests
use sumurai.Prelude.{
  ℕ, Bool, true, false, not, ◌||◌, Option, none, some, List, [], ◌∷◌, ◌++◌, if◌then◌else◌, get_or,
  ◌==◌,
}
use sumurai.Prelude.Text.{Text, lit, is_empty, or_text}
use sumurai.Dates.{number_text}

-- the subclasses of `ApiError`, and `ApiError` itself
pub data ErrorClass : Type 0 where
  plain authentication validation network server conflict not_found forbidden : ErrorClass

pub record ApiError : Type 0 where
  pub class : ErrorClass
  pub status : ℕ
  pub message : Text
  pub code : Option Text

-- What is thrown: an `ApiError`, another `Error` with its message, or a value that is no `Error`.
pub data Thrown : Type 0 where
  api_error : ApiError → Thrown
  plain_error : Text → Thrown
  no_error : Thrown

pub data Result (A : Type 0) : Type 0 where
  ok : A → Result A
  throw : Thrown → Result A

-- the constructors
unfoldable pub authentication_error : Text → ApiError
authentication_error message = record {
  class = ErrorClass.authentication;
  status = 401;
  message = message;
  code = some (lit "AUTH_REQUIRED");
}

pub validation_error : Text → ApiError
validation_error message = record {
  class = ErrorClass.validation;
  status = 400;
  message = message;
  code = some (lit "VALIDATION_ERROR");
}

unfoldable pub network_error : Text → ApiError
network_error message = record {
  class = ErrorClass.network;
  status = 0;
  message = message;
  code = some (lit "NETWORK_ERROR");
}

unfoldable pub server_error : ℕ → Text → ApiError
server_error status message = record {
  class = ErrorClass.server;
  status = status;
  message = message;
  code = some (lit "SERVER_ERROR");
}

pub conflict_error : Text → ApiError
conflict_error message = record {
  class = ErrorClass.conflict;
  status = 409;
  message = message;
  code = some (lit "CONFLICT");
}

pub not_found_error : Text → ApiError
not_found_error message = record {
  class = ErrorClass.not_found;
  status = 404;
  message = message;
  code = some (lit "NOT_FOUND");
}

pub forbidden_error : Text → ApiError
forbidden_error message = record {
  class = ErrorClass.forbidden;
  status = 403;
  message = message;
  code = some (lit "FORBIDDEN");
}

pub plain_api_error : ℕ → Text → ApiError
plain_api_error status message = record {
  class = ErrorClass.plain;
  status = status;
  message = message;
  code = none;
}

-- The texts of the JSON body that an error message is taken from.
pub record ErrorData : Type 0 where
  pub message : Option Text
  pub error : Option Text
  pub detail : Option Text

-- A response: `json` is what `response.json()` gives, `none` when it rejects or gives null, and
-- `error_data` the same body as `createApiError` reads it.
pub record Response (A : Type 0) : Type 0 where
  pub is_ok : Bool
  pub status : ℕ
  pub status_text : Text
  pub json : Option A
  pub error_data : Option ErrorData

pub error_message : ℕ → Text → Option ErrorData → Text
error_message status status_text none =
    number_text status ++ lit " " ++ or_text (some status_text) (lit "Error")
error_message status status_text (some d) =
    or_text d.message (or_text d.error (or_text d.detail (lit "Request failed")))

-- the `switch`
pub error_of_status : ℕ → Text → ApiError
error_of_status status message =
    if status == 400
    then validation_error message
    else if status == 401
    then authentication_error message
    else if status == 403
    then forbidden_error message
    else if status == 404
    then not_found_error message
    else if status == 409
    then conflict_error message
    else if (status == 500) || (status == 502) || (status == 503) || (status == 504)
    then server_error status message
    else plain_api_error status message

module _ {A : Type 0} where
  pub create_api_error : Response A → ApiError
  create_api_error r = error_of_status r.status (error_message r.status r.status_text r.error_data)

  -- `empty` is `{}` and `bad_json` the error of `response.json()`.
  pub handle_response : A → Thrown → Response A → Result A
  handle_response empty bad_json r =
      if r.is_ok
      then (if r.status == 204
          then ok empty
          else elim r.json [ none ↦ throw bad_json | some a ↦ ok a ])
      else throw (api_error (create_api_error r))

-- `baseUrl.replace(/\/+$/, '')`
pub trim_slashes : Text → Text
trim_slashes [] = []
trim_slashes (c ∷ s) =
    let rest = trim_slashes s in
    if is_empty rest then (if c == b'/' then [] else c ∷ []) else c ∷ rest

pub normalize_base_url : Option Text → Text
normalize_base_url base =
    if is_empty (get_or base [])
    then lit "/api"
    else let trimmed = trim_slashes (get_or base []) in
      if is_empty trimmed then lit "/api" else trimmed

pub starts_with_slash : Text → Bool
starts_with_slash [] = false
starts_with_slash (c ∷ s) = c == b'/'

pub build_url : Text → Text → Text
build_url base endpoint = base ++ (if starts_with_slash endpoint then endpoint else b'/' ∷ endpoint)
