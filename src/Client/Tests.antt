-- ===== src/Client/Tests.antt =====
-- Runs of the client against a server that tells an old token from a new one.
use sumurai.Prelude.{ℕ, ◌≡◌, ◌≢◌, refl, Bool, true, false, none, some, [], get_or, ◌+◌}
use sumurai.Prelude.Text.{Text, lit, eq, eq_iff, eq-false, is_empty}
use sumurai.Http.{Result, ok, throw, api_error, plain_error, authentication_error, network_error}
use sumurai.Client.{
  is_authentication_error, is_authentication_class, HttpRequest, Options, State, get,
  refresh_endpoint, bearer, make_raw_request, make_request, is_retryable_message,
}
use sumurai.Client.Evaluation.{clients}
use sumurai.Client.Retry.{Returns, is_unauthorized, make_request_bounded}
use sumurai.Client.Reauthentication.{make_request_diverges}
use sumurai.Client.Errors.{make_request_lost}

-- Answers a refresh with a new token, a request that bears it with its data, and all others by 401.
abbrev answer : Bool → Bool → Result Text
answer true b = ok (lit "new")
answer false true = ok (lit "data")
answer false false = throw (api_error (authentication_error (lit "expired")))

abbrev server : ℕ → HttpRequest Text → Result Text × ℕ
server n r = (
  answer (eq r.endpoint refresh_endpoint) (eq (get_or r.authorization []) (bearer (lit "new"))),
  n + 1,
)

-- refuses every token, its own included
abbrev refuse : Bool → Result Text
refuse true = ok (lit "new")
refuse false = throw (api_error (authentication_error (lit "expired")))

abbrev refusing : ℕ → HttpRequest Text → Result Text × ℕ
refusing n r = (refuse (eq r.endpoint refresh_endpoint), n + 1)

-- no connection at all
abbrev offline : ℕ → HttpRequest Text → Result Text × ℕ
offline n r = (throw (plain_error (lit "Failed to fetch")), n + 1)

abbrev own_token : Text → Text
own_token t = t

abbrev request : Options Text
request = record { method = get; body = none; authorization = none }

abbrev logged_in : State ℕ
logged_in = record { token = some (lit "old"); world = 0; sent = 0 }

abbrev sent_four : State ℕ
sent_four = record { token = some (lit "old"); world = 4; sent = 4 }

abbrev renewed : State ℕ
renewed = record { token = some (lit "new"); world = 3; sent = 3 }

offline_run :
    make_request offline own_token 4 (lit "/budgets") request logged_in
    ≡ some (throw (api_error (network_error (lit "Failed to fetch"))), sent_four)
unfolding clients
offline_run = refl

server_run :
    make_request server own_token 2 (lit "/budgets") request logged_in
    ≡ some (ok (lit "data"), renewed)
unfolding clients
server_run = refl

abbrev budgets : Text
budgets = lit "/budgets"

abbrev refreshed : State ℕ
refreshed = record { token = some (lit "old"); world = 2; sent = 2 }

offline_first :
    is_unauthorized offline own_token
      (make_raw_request offline own_token budgets request logged_in).0
    ≡ false
unfolding clients
offline_first = refl

make_request_bounded_example :
    Returns offline own_token 4
      (make_request offline own_token 4 budgets request logged_in)
      logged_in
make_request_bounded_example =
    make_request_bounded offline own_token budgets request logged_in offline_first

eq-budgets : eq budgets refresh_endpoint ≡ false
unfolding eq
eq-budgets = refl

budgets_apart : budgets ≢ refresh_endpoint
budgets_apart p =
    let q = eq_iff budgets refresh_endpoint in let r = q.1 p in let n = eq-budgets in cc

refused :
    (w : ℕ) (r : HttpRequest Text)
    → r.endpoint ≢ refresh_endpoint
    → is_unauthorized refusing own_token (refusing w r).0 ≡ true
unfolding authentication_error is_authentication_error is_authentication_class
refused w r h = rw (eq-false r.endpoint refresh_endpoint h) refl

reissued :
    (w : ℕ) (r : HttpRequest Text)
    → r.endpoint ≡ refresh_endpoint
    → (b : Text) × ((refusing w r).0 ≡ ok b) × (is_empty (own_token b) ≡ false)
reissued w r h = (lit "new", rw ((eq_iff r.endpoint refresh_endpoint).1 h) refl, refl)

make_request_diverges_example : make_request refusing own_token 100 budgets request logged_in ≡ none
make_request_diverges_example =
    make_request_diverges refusing own_token refused reissued 100 budgets request logged_in refl
      budgets_apart refl

reads_lost : is_retryable_message (lit "Failed to fetch") ≡ true
unfolding clients
reads_lost = refl

make_request_lost_example :
    (t : State ℕ) × (make_request offline own_token 4 budgets request logged_in
      ≡ some (throw (api_error (network_error (lit "Failed to fetch"))), t))
    × (t.sent ≡ 4)
    × (t.token ≡ some (lit "old"))
make_request_lost_example =
    make_request_lost offline own_token (lit "Failed to fetch") (λ w r. refl) reads_lost budgets
      request logged_in refl
