-- ===== src/Client/Reauthentication.antt =====
-- frontend/src/services/ApiClient.ts: what a call does when its first answer is a 401.
use sumurai.Prelude.{
  ℕ, zero, suc, ◌≡◌, ◌≢◌, refl, Bool, true, false, none, some, [], get_or, ap, ◌∙◌,
}
use sumurai.Prelude.Text.{Text, eq-false, is_empty}
use sumurai.Http.{authentication_error, Result, ok, throw}
use sumurai.Client.{
  is_authentication_error, is_authentication_class, HttpRequest, Options, State, Method, get, put,
  delete, other_method, by_method, send, request_of, post, action_on, refresh_endpoint, bearer,
  authentication_required, clear_token, store_token, make_raw_request, Again, refresh_unless,
  handle_unless, refresh_token, after_refresh, handle_authentication_error, perform, settle,
  make_request_with_retry, make_request,
}
use sumurai.Client.Retry.{is_unauthorized}

pub required_is_authentication : is_authentication_error authentication_required ≡ true
unfolding is_authentication_error is_authentication_class authentication_required
    authentication_error
required_is_authentication = refl

module _ {W D : Type 0} (http : W → HttpRequest D → Result D × W) (token_of : D → Text) where
  settle_reauthenticates :
      (again : Again http token_of) (endpoint : Text) (o : Options D) (x : Result D × State W)
      → is_unauthorized http token_of x.0 ≡ true
      → settle http token_of again endpoint o 0 x
        ≡ handle_authentication_error http token_of again endpoint o x.1
  unfolding settle perform action_on
  settle_reauthenticates again endpoint o (ok b, t) h = cc
  settle_reauthenticates again endpoint o (throw e, t) h = rw h refl

  -- The state in which the first answer leaves the client.
  abbrev pub after_first : Text → Options D → State W → State W
  after_first endpoint o s = (make_raw_request http token_of endpoint o s).1

  abbrev pub refresh_options : Options D
  refresh_options = record { method = post; body = none; authorization = none }

  handle_refreshed :
      (again : Again http token_of) (endpoint : Text) (o : Options D) (s : State W)
      (x : Result D × State W)
      → endpoint ≢ refresh_endpoint
      → is_empty (get_or s.token []) ≡ false
      → again refresh_endpoint refresh_options 0 s ≡ some x
      → handle_authentication_error http token_of again endpoint o s
        ≡ after_refresh http token_of again endpoint o x
  unfolding handle_authentication_error handle_unless refresh_token refresh_unless
  handle_refreshed again endpoint o s x other k p =
      rw (eq-false endpoint refresh_endpoint other, k, p) refl

  handle_no_token :
      (again : Again http token_of) (endpoint : Text) (o : Options D) (s : State W)
      → endpoint ≢ refresh_endpoint
      → is_empty (get_or s.token []) ≡ true
      → handle_authentication_error http token_of again endpoint o s
        ≡ some (throw authentication_required, clear_token s)
  unfolding handle_authentication_error handle_unless refresh_token refresh_unless after_refresh
  handle_no_token again endpoint o s other k = rw (eq-false endpoint refresh_endpoint other, k) refl

  -- Without a stored token, such a call ends after one request, as one that is not authenticated.
  pub make_request_no_token :
      (f : ℕ) (endpoint : Text) (o : Options D) (s : State W)
      → endpoint ≢ refresh_endpoint
      → is_unauthorized http token_of (make_raw_request http token_of endpoint o s).0 ≡ true
      → is_empty (get_or (after_first endpoint o s).token []) ≡ true
      → make_request http token_of (suc f) endpoint o s
        ≡ some (throw authentication_required, clear_token (after_first endpoint o s))
  unfolding make_request make_request_with_retry
  make_request_no_token f endpoint o s other h k =
      settle_reauthenticates _ endpoint o _ h ∙ handle_no_token _ endpoint o _ other k

  -- A call of another endpoint that is answered by a 401 while a token is stored asks for a new
  -- token. With one, it stores it and is made again from its start with it; without one, the
  -- stored token is removed and the error says that authentication is required.
  pub make_request_unauthorized :
      (f : ℕ) (endpoint : Text) (o : Options D) (s : State W) (answer : Result D) (t : State W)
      → endpoint ≢ refresh_endpoint
      → is_unauthorized http token_of (make_raw_request http token_of endpoint o s).0 ≡ true
      → is_empty (get_or (after_first endpoint o s).token []) ≡ false
      → make_request http token_of f refresh_endpoint refresh_options (after_first endpoint o s)
        ≡ some (answer, t)
      → make_request http token_of (suc f) endpoint o s ≡ elim answer [
        | ok b ↦
            make_request http token_of f endpoint
              (record o { authorization = some (bearer (token_of b)) })
              (store_token (token_of b) t)
        | throw e ↦ some (throw authentication_required, clear_token t)
      ]
  unfolding make_request make_request_with_retry after_refresh
  make_request_unauthorized f endpoint o s (ok b) t other h k p =
      settle_reauthenticates _ endpoint o _ h ∙ handle_refreshed _ endpoint o _ _ other k p
  make_request_unauthorized f endpoint o s (throw e) t other h k p =
      settle_reauthenticates _ endpoint o _ h ∙ handle_refreshed _ endpoint o _ _ other k p

  abbrev pub is_supported : Method → Bool
  is_supported (other_method m) = false
  is_supported _ = true

  by_method-unauthorized :
      ((w : W) (r : HttpRequest D)
        → r.endpoint ≢ refresh_endpoint
        → is_unauthorized http token_of (http w r).0 ≡ true)
      → (m : Method) (endpoint : Text) (o : Options D) (s : State W) → is_supported m ≡ true
      → endpoint ≢ refresh_endpoint
      → is_unauthorized http token_of (by_method http token_of m endpoint o s).0 ≡ true
  unfolding by_method send request_of
  by_method-unauthorized all get endpoint o s k other = all _ _ other
  by_method-unauthorized all post endpoint o s k other = all _ _ other
  by_method-unauthorized all put endpoint o s k other = all _ _ other
  by_method-unauthorized all delete endpoint o s k other = all _ _ other
  by_method-unauthorized all (other_method m) endpoint o s k other = cc

  token-by_method :
      (m : Method) (endpoint : Text) (o : Options D) (s : State W)
      → (by_method http token_of m endpoint o s).1.token ≡ s.token
  unfolding by_method send
  token-by_method get endpoint o s = refl
  token-by_method post endpoint o s = refl
  token-by_method put endpoint o s = refl
  token-by_method delete endpoint o s = refl
  token-by_method (other_method m) endpoint o s = refl

  settle-ok :
      (again : Again http token_of) (endpoint : Text) (o : Options D) (a : ℕ)
      (x : Result D × State W) (b : D)
      → x.0 ≡ ok b
      → settle http token_of again endpoint o a x ≡ some (ok b, x.1)
  unfolding settle
  settle-ok again endpoint o a (ok c, t) b p = ap (λ r. some (r, t)) p
  settle-ok again endpoint o a (throw e, t) b p = cc

  refresh_answers :
      ((w : W) (r : HttpRequest D)
        → r.endpoint ≡ refresh_endpoint
        → (b : D) × ((http w r).0 ≡ ok b) × (is_empty (token_of b) ≡ false))
      → (f : ℕ) (s : State W)
      → (b : D) × (t : State W) × (is_empty (token_of b) ≡ false)
        × (make_request http token_of (suc f) refresh_endpoint refresh_options s ≡ some (ok b, t))
  unfolding make_request make_request_with_retry make_raw_request by_method send request_of
  refresh_answers all f s =
      let (b, p, q) =
        all s.world (request_of http token_of refresh_endpoint refresh_options post none s) refl in
      (b, _, q, settle-ok _ refresh_endpoint refresh_options 0 _ b p)

  handle_without_fuel :
      (endpoint : Text) (o : Options D) (s : State W)
      → endpoint ≢ refresh_endpoint
      → is_empty (get_or s.token []) ≡ false
      → handle_authentication_error http token_of
          (make_request_with_retry http token_of 0)
          endpoint
          o
          s
        ≡ none
  unfolding handle_authentication_error handle_unless refresh_token refresh_unless
      make_request_with_retry
  handle_without_fuel endpoint o s other k = rw (eq-false endpoint refresh_endpoint other, k) refl

  -- When every request but the refresh is answered by a 401, and every refresh by a token that is
  -- not empty, a call with a stored token never ends: no fuel is enough for it.
  pub make_request_diverges :
      ((w : W) (r : HttpRequest D)
        → r.endpoint ≢ refresh_endpoint
        → is_unauthorized http token_of (http w r).0 ≡ true)
      → ((w : W) (r : HttpRequest D)
          → r.endpoint ≡ refresh_endpoint
          → (b : D) × ((http w r).0 ≡ ok b) × (is_empty (token_of b) ≡ false))
      → (f : ℕ) (endpoint : Text) (o : Options D) (s : State W) → is_supported o.method ≡ true
      → endpoint ≢ refresh_endpoint
      → is_empty (get_or s.token []) ≡ false
      → make_request http token_of f endpoint o s ≡ none
  unfolding make_request make_request_with_retry make_raw_request after_refresh store_token
  make_request_diverges refused renewed zero endpoint o s m other k = refl
  make_request_diverges refused renewed (suc zero) endpoint o s m other k =
      settle_reauthenticates _ endpoint o _
        (by_method-unauthorized refused o.method endpoint o s m other)
      ∙ handle_without_fuel endpoint o _ other
          (ap (λ t. is_empty (get_or t [])) (token-by_method o.method endpoint o s) ∙ k)
  make_request_diverges refused renewed (suc (suc f)) endpoint o s m other k =
      let (b, t, q, p) = refresh_answers renewed f (after_first endpoint o s) in
      make_request_unauthorized (suc f) endpoint o s (ok b) t other
        (by_method-unauthorized refused o.method endpoint o s m other)
        (ap (λ t. is_empty (get_or t [])) (token-by_method o.method endpoint o s) ∙ k) p
      ∙ make_request_diverges refused renewed (suc f) endpoint _ (store_token (token_of b) t) m
          other q
