-- ===== src/Client/Evaluation.antt =====
-- What a run of the client unfolds, for its tests.
use sumurai.Prelude.Text.{eq, includes, starts_with, to_lower_case, lower}
use sumurai.Http.{authentication_error, network_error, server_error}
use sumurai.Client.{
  is_retryable_status, is_retryable_message, is_authentication_class, is_authentication_error,
  has_retryable_status, is_retryable_error, outgoing, action_on, authentication_required,
  authorization_header, clear_token, store_token, send, request_of, by_method, make_raw_request,
  refresh_unless, refresh_token, after_refresh, handle_unless, handle_authentication_error, perform,
  settle, make_request_with_retry, make_request,
}

unfoldable pub clients : Unit {0}
unfolding eq includes starts_with to_lower_case lower authentication_error network_error
    server_error is_retryable_status is_retryable_message is_authentication_class
    is_authentication_error has_retryable_status is_retryable_error outgoing action_on
    authentication_required authorization_header clear_token store_token send request_of by_method
    make_raw_request refresh_unless refresh_token after_refresh handle_unless
    handle_authentication_error perform settle make_request_with_retry make_request
clients = tt
