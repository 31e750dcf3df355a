-- ===== src/Client/Errors.antt =====
-- frontend/src/services/ApiClient.ts: which errors a call can end with.
use sumurai.Prelude.{
  ◌+◌, ltb, ap, ◌∙◌, ◌⊎◌, inl, inr, ℕ, zero, suc, ◌≡◌, refl, Bool, true, false, some, sym,
  if◌then◌else◌, arith, >>=-eq-some, some-injective,
}
use sumurai.Prelude.Text.{Text}
use sumurai.Http.{Thrown, api_error, plain_error, no_error, network_error, Result, ok, throw}
use sumurai.Client.{
  HttpRequest, Options, State, Action, reauthenticate, retry, rethrow, action_on, outgoing,
  is_retryable_message, authentication_required, Again, handle_unless, refresh_token, after_refresh,
  handle_authentication_error, perform, settle, make_request_with_retry, make_request, Method, get,
  post, put, delete, other_method, by_method, send, request_of, make_raw_request,
  is_authentication_error, has_retryable_status, is_retryable_error,
}
use sumurai.Client.Reauthentication.{is_supported}

-- An error that does not read like a lost connection, unless it is an `ApiError`.
abbrev pub IsReportedError : Thrown → Type 0
IsReportedError (api_error e) = Unit {0}
IsReportedError (plain_error m) = is_retryable_message m ≡ false
IsReportedError no_error = Unit {0}

abbrev pub IsReported : {D : Type 0} → Result D → Type 0
IsReported (ok b) = Unit {0}
IsReported (throw e) = IsReportedError e

outgoing-IsReported : (e : Thrown) → IsReportedError (outgoing e)
unfolding outgoing
outgoing-IsReported (api_error e) = tt
outgoing-IsReported no_error = tt
outgoing-IsReported (plain_error m) =
    elim (is_retryable_message m)
        as (λ b.
          is_retryable_message m ≡ b
          → IsReportedError (if b then api_error (network_error m) else plain_error m)) [
            | true ↦ λ p. tt
            | false ↦ λ p. p
          ]
      refl

-- what an action throws
abbrev Rethrown : Action → Type 0
Rethrown reauthenticate = Unit {0}
Rethrown retry = Unit {0}
Rethrown (rethrow e) = IsReportedError e

action_on_cases :
    (a : ℕ) (e : Thrown)
    → (action_on a e ≡ reauthenticate)
      ⊎ ((action_on a e ≡ retry) ⊎ (action_on a e ≡ rethrow (outgoing e)))
unfolding action_on
action_on_cases a e = ground arith

Rethrown-of :
    (c : Action) (e : Thrown)
    → (c ≡ reauthenticate) ⊎ ((c ≡ retry) ⊎ (c ≡ rethrow (outgoing e)))
    → Rethrown c
Rethrown-of c e (inl p) = rw p tt
Rethrown-of c e (inr (inl p)) = rw p tt
Rethrown-of c e (inr (inr p)) = rw p (outgoing-IsReported e)

module _ {W D : Type 0} (http : W → HttpRequest D → Result D × W) (token_of : D → Text) where
  abbrev Reports : Again http token_of → Type 0
  Reports again =
      (endpoint : Text) (o : Options D) (a : ℕ) (s : State W) (r : Result D × State W)
      → again endpoint o a s ≡ some r
      → IsReported r.0

  IsReported-of : (x r : Result D × State W) → some x ≡ some r → IsReported x.0 → IsReported r.0
  IsReported-of x r p k = rw (sym (some-injective _ _ p)) k

  module _ {again : Again http token_of} (h : Reports again) where
    after_refresh-IsReported :
        (endpoint : Text) (o : Options D) (x r : Result D × State W)
        → after_refresh http token_of again endpoint o x ≡ some r
        → IsReported r.0
    unfolding after_refresh authentication_required
    after_refresh-IsReported endpoint o (ok b, s) r p = h _ _ _ _ r p
    after_refresh-IsReported endpoint o (throw e, s) r p = IsReported-of _ r p tt

    handle_unless-IsReported :
        (b : Bool) (endpoint : Text) (o : Options D) (s : State W) (r : Result D × State W)
        → handle_unless http token_of b again endpoint o s ≡ some r
        → IsReported r.0
    unfolding handle_unless authentication_required
    handle_unless-IsReported true endpoint o s r p = IsReported-of _ r p tt
    handle_unless-IsReported false endpoint o s r p =
        let (x, px, q) = >>=-eq-some (refresh_token http token_of again s) _ p in
        after_refresh-IsReported endpoint o x r q

    perform-IsReported :
        (endpoint : Text) (o : Options D) (a : ℕ) (s : State W) (c : Action)
        (r : Result D × State W)
        → Rethrown c
        → perform http token_of again endpoint o a s c ≡ some r
        → IsReported r.0
    unfolding perform handle_authentication_error
    perform-IsReported endpoint o a s reauthenticate r k p =
        handle_unless-IsReported _ endpoint o s r p
    perform-IsReported endpoint o a s retry r k p = h _ _ _ _ r p
    perform-IsReported endpoint o a s (rethrow e) r k p = IsReported-of _ r p k

    settle-IsReported :
        (endpoint : Text) (o : Options D) (a : ℕ) (x r : Result D × State W)
        → settle http token_of again endpoint o a x ≡ some r
        → IsReported r.0
    unfolding settle
    settle-IsReported endpoint o a (ok b, s) r p = IsReported-of _ r p tt
    settle-IsReported endpoint o a (throw e, s) r p =
        perform-IsReported endpoint o a s (action_on a e) r (Rethrown-of _ e (action_on_cases a e))
          p

  reports : (f : ℕ) → Reports (make_request_with_retry http token_of f)
  unfolding make_request_with_retry
  reports zero endpoint o a s r p = cc
  reports (suc f) endpoint o a s r p = settle-IsReported (reports f) endpoint o a _ r p

  -- A call never ends with a plain error that reads like a lost connection.
  pub make_request-IsReported :
      (f : ℕ) (endpoint : Text) (o : Options D) (s : State W) (r : Result D × State W)
      → make_request http token_of f endpoint o s ≡ some r
      → IsReported r.0
  unfolding make_request
  make_request-IsReported f endpoint o s r p = reports f endpoint o 0 s r p

  settle-throw :
      (again : Again http token_of) (endpoint : Text) (o : Options D) (a : ℕ)
      (x : Result D × State W) (e : Thrown)
      → x.0 ≡ throw e
      → settle http token_of again endpoint o a x
        ≡ perform http token_of again endpoint o a x.1 (action_on a e)
  unfolding settle
  settle-throw again endpoint o a (ok b, t) e h = cc
  settle-throw again endpoint o a (throw d, t) e h =
      ap (λ c. settle http token_of again endpoint o a (c, t)) h

  module _ (m : Text) (lost : (w : W) (r : HttpRequest D) → (http w r).0 ≡ throw (plain_error m))
      (reads_lost : is_retryable_message m ≡ true) where
    by_method-lost :
        (method : Method) (endpoint : Text) (o : Options D) (s : State W)
        → is_supported http token_of method ≡ true
        → ((by_method http token_of method endpoint o s).0 ≡ throw (plain_error m))
          × ((by_method http token_of method endpoint o s).1.sent ≡ s.sent + 1)
          × ((by_method http token_of method endpoint o s).1.token ≡ s.token)
    unfolding by_method send request_of
    by_method-lost get endpoint o s k = (lost _ _, refl, refl)
    by_method-lost post endpoint o s k = (lost _ _, refl, refl)
    by_method-lost put endpoint o s k = (lost _ _, refl, refl)
    by_method-lost delete endpoint o s k = (lost _ _, refl, refl)
    by_method-lost (other_method n) endpoint o s k = cc

    action_on-lost :
        (a : ℕ)
        → action_on a (plain_error m)
          ≡ (if ltb a 3 then retry else rethrow (api_error (network_error m)))
    unfolding action_on is_authentication_error has_retryable_status is_retryable_error outgoing
    action_on-lost a = ground (arith, reads_lost)

    abbrev Lost : ℕ → ℕ → Text → Options D → State W → Type 0
    Lost f a endpoint o s =
        (t : State W) × (make_request_with_retry http token_of (suc f) endpoint o a s
          ≡ some (throw (api_error (network_error m)), t))
        × (t.sent ≡ s.sent + suc f)
        × (t.token ≡ s.token)

    unanswered_attempts :
        (f a : ℕ) (endpoint : Text) (o : Options D) (s : State W)
        → a + f ≡ 3
        → is_supported http token_of o.method ≡ true
        → Lost f a endpoint o s
    unfolding make_request_with_retry make_raw_request perform
    unanswered_attempts zero a endpoint o s h k =
        let x = by_method http token_of o.method endpoint o s in
        let (r, n, t) = by_method-lost o.method endpoint o s k in
        let e : ltb a 3 ≡ false = ground (arith, h) in
        (
          x.1,
          settle-throw _ endpoint o a x (plain_error m) r
              ∙ ap (perform http token_of _ endpoint o a x.1) (action_on-lost a)
              ∙ rw e refl,
          n,
          t,
        )
    unanswered_attempts (suc f) a endpoint o s h k =
        let x = by_method http token_of o.method endpoint o s in
        let (r, n, t) = by_method-lost o.method endpoint o s k in
        let e : ltb a 3 ≡ true = ground (arith, h) in
        let (u, p, q, v) = unanswered_attempts f (a + 1) endpoint o x.1 (omega (arith, h)) k in
        (
          u,
          settle-throw _ endpoint o a x (plain_error m) r
              ∙ ap (perform http token_of _ endpoint o a x.1) (action_on-lost a)
              ∙ rw e p,
          omega (arith, q, n),
          v ∙ t,
        )

    -- When every request fails with the same plain error that reads like a lost connection, a call
    -- sends exactly four requests, ends with a `NetworkError` of that message, and keeps the token.
    pub make_request_lost :
        (endpoint : Text) (o : Options D) (s : State W)
        → is_supported http token_of o.method ≡ true
        → (t : State W) × (make_request http token_of 4 endpoint o s
            ≡ some (throw (api_error (network_error m)), t))
          × (t.sent ≡ s.sent + 4)
          × (t.token ≡ s.token)
    unfolding make_request
    make_request_lost endpoint o s k = unanswered_attempts 3 0 endpoint o s refl k
