-- ===== src/Client/Retry.antt =====
-- frontend/src/services/ApiClient.ts: fuel, and the bound on the requests of a call.
use sumurai.Prelude.{
  ℕ, zero, suc, ◌+◌, ◌≤◌, ◌<◌, ◌⊎◌, ◌≡◌, inl, inr, refl, Bool, true, false, Option, some, arith, ap,
  sym, ◌∙◌, >>=-eq-some,
}
use sumurai.Prelude.Text.{Text, eq}
use sumurai.Http.{Thrown, Result, ok, throw}
use sumurai.Client.{
  HttpRequest, Options, State, Method, get, post, put, delete, other_method, Action, reauthenticate,
  retry, rethrow, action_on, outgoing, is_authentication_error, max_retries, refresh_endpoint,
  authentication_required, clear_token, send, by_method, make_raw_request, Again, refresh_unless,
  handle_unless, refresh_token, after_refresh, handle_authentication_error, perform, settle,
  make_request_with_retry, make_request,
}

module _ {W D : Type 0} (http : W → HttpRequest D → Result D × W) (token_of : D → Text) where
  -- h answers wherever g does, with the same answer
  abbrev Extends : Again http token_of → Again http token_of → Type 0
  Extends g h =
      (endpoint : Text) (o : Options D) (a : ℕ) (s : State W) (r : Result D × State W)
      → g endpoint o a s ≡ some r
      → h endpoint o a s ≡ some r

  module _ {g h : Again http token_of} (e : Extends g h) where
    refresh_unless-Extends :
        (b : Bool) (s : State W) (r : Result D × State W)
        → refresh_unless http token_of b g s ≡ some r
        → refresh_unless http token_of b h s ≡ some r
    unfolding refresh_unless
    refresh_unless-Extends true s r p = p
    refresh_unless-Extends false s r p = e _ _ _ _ _ p

    after_refresh-Extends :
        (endpoint : Text) (o : Options D) (x r : Result D × State W)
        → after_refresh http token_of g endpoint o x ≡ some r
        → after_refresh http token_of h endpoint o x ≡ some r
    unfolding after_refresh
    after_refresh-Extends endpoint o (ok b, s) r p = e _ _ _ _ _ p
    after_refresh-Extends endpoint o (throw x, s) r p = p

    handle_unless-Extends :
        (b : Bool) (endpoint : Text) (o : Options D) (s : State W) (r : Result D × State W)
        → handle_unless http token_of b g endpoint o s ≡ some r
        → handle_unless http token_of b h endpoint o s ≡ some r
    unfolding handle_unless refresh_token
    handle_unless-Extends true endpoint o s r p = p
    handle_unless-Extends false endpoint o s r p =
        let (x, px, q) = >>=-eq-some (refresh_token http token_of g s) _ p in
        let px' = refresh_unless-Extends _ s x px in
        let q' = after_refresh-Extends endpoint o x r q in cc

    perform-Extends :
        (endpoint : Text) (o : Options D) (a : ℕ) (s : State W) (c : Action)
        (r : Result D × State W)
        → perform http token_of g endpoint o a s c ≡ some r
        → perform http token_of h endpoint o a s c ≡ some r
    unfolding perform handle_authentication_error
    perform-Extends endpoint o a s reauthenticate r p = handle_unless-Extends _ endpoint o s r p
    perform-Extends endpoint o a s retry r p = e _ _ _ _ _ p
    perform-Extends endpoint o a s (rethrow x) r p = p

    settle-Extends :
        (endpoint : Text) (o : Options D) (a : ℕ) (x r : Result D × State W)
        → settle http token_of g endpoint o a x ≡ some r
        → settle http token_of h endpoint o a x ≡ some r
    unfolding settle
    settle-Extends endpoint o a (ok b, s) r p = p
    settle-Extends endpoint o a (throw x, s) r p =
        perform-Extends endpoint o a s (action_on a x) r p

  more_fuel :
      (f : ℕ)
      → Extends
          (make_request_with_retry http token_of f)
          (make_request_with_retry http token_of (suc f))
  unfolding make_request_with_retry
  more_fuel zero endpoint o a s r p = cc
  more_fuel (suc f) endpoint o a s r p = settle-Extends (more_fuel f) endpoint o a _ r p

  -- A call that has returned returns the same with more fuel.
  pub make_request-more_fuel :
      (f : ℕ) (endpoint : Text) (o : Options D) (s : State W) (r : Result D × State W)
      → make_request http token_of f endpoint o s ≡ some r
      → make_request http token_of (suc f) endpoint o s ≡ some r
  unfolding make_request
  make_request-more_fuel f endpoint o s r p = more_fuel f endpoint o 0 s r p

  sent-by_method :
      (m : Method) (endpoint : Text) (o : Options D) (s : State W)
      → (by_method http token_of m endpoint o s).1.sent ≤ s.sent + 1
  unfolding by_method send
  sent-by_method get endpoint o s = omega arith
  sent-by_method post endpoint o s = omega arith
  sent-by_method put endpoint o s = omega arith
  sent-by_method delete endpoint o s = omega arith
  sent-by_method (other_method m) endpoint o s = omega arith

  action_on-later :
      (a : ℕ) (e : Thrown)
      → 1 ≤ a
      → ((action_on a e ≡ retry) × (a < max_retries)) ⊎ (action_on a e ≡ rethrow (outgoing e))
  unfolding action_on
  action_on-later a e h = ground arith

  -- A call that returns, within n requests.
  abbrev pub Returns : ℕ → Option (Result D × State W) → State W → Type 0
  Returns n x s = (r : Result D × State W) × (x ≡ some r) × (r.1.sent ≤ s.sent + n)

  perform_later :
      (again : Again http token_of) (n a : ℕ) (endpoint : Text) (o : Options D) (e : Thrown)
      (c : Action) (s : State W)
      → ((c ≡ retry) × (a < max_retries)) ⊎ (c ≡ rethrow (outgoing e))
      → (a < max_retries → (t : State W) → Returns n (again endpoint o (a + 1) t) t)
      → Returns n (perform http token_of again endpoint o a s c) s
  unfolding perform
  perform_later again n a endpoint o e c s (inl (p, lt)) next = rw p (next lt s)
  perform_later again n a endpoint o e c s (inr p) next =
      rw p ((throw (outgoing e), s), refl, omega arith)

  settle_later :
      (again : Again http token_of) (n a : ℕ) (endpoint : Text) (o : Options D)
      (x : Result D × State W) (s : State W)
      → ((e : Thrown)
          → x.0 ≡ throw e
          → ((action_on a e ≡ retry) × (a < max_retries)) ⊎ (action_on a e ≡ rethrow (outgoing e)))
      → x.1.sent ≤ s.sent + 1
      → (a < max_retries → (t : State W) → Returns n (again endpoint o (a + 1) t) t)
      → Returns (suc n) (settle http token_of again endpoint o a x) s
  unfolding settle
  settle_later again n a endpoint o (ok b, t) s acts h next = ((ok b, t), refl, omega arith)
  settle_later again n a endpoint o (throw e, t) s acts h next =
      let (r, p, k) = perform_later again n a endpoint o e (action_on a e) t (acts e refl) next in
      (r, p, omega arith)

  later_attempts :
      (f a : ℕ) (endpoint : Text) (o : Options D) (s : State W)
      → 1 ≤ a
      → a + f ≡ max_retries
      → Returns (suc f) (make_request_with_retry http token_of (suc f) endpoint o a s) s
  unfolding make_request_with_retry make_raw_request
  later_attempts zero a endpoint o s h k =
      settle_later _ 0 a endpoint o _ s (λ e p. action_on-later a e h)
        (sent-by_method o.method endpoint o s) (λ lt. absurd (omega arith))
  later_attempts (suc f) a endpoint o s h k =
      settle_later _ (suc f) a endpoint o _ s (λ e p. action_on-later a e h)
        (sent-by_method o.method endpoint o s)
        (λ lt t. later_attempts f (a + 1) endpoint o t (omega arith) (omega arith))

  action_on-first :
      (e : Thrown)
      → is_authentication_error e ≡ false
      → ((action_on 0 e ≡ retry) × (0 < max_retries)) ⊎ (action_on 0 e ≡ rethrow (outgoing e))
  unfolding action_on
  action_on-first e h = ground arith

  abbrev pub is_unauthorized : Result D → Bool
  is_unauthorized (ok b) = false
  is_unauthorized (throw e) = is_authentication_error e

  -- A call whose first answer is not a 401 returns, whatever the answers are, and sends at most four
  -- requests: one, and one for each of the three retries.
  pub make_request_bounded :
      (endpoint : Text) (o : Options D) (s : State W)
      → is_unauthorized (make_raw_request http token_of endpoint o s).0 ≡ false
      → Returns 4 (make_request http token_of 4 endpoint o s) s
  unfolding make_request make_request_with_retry make_raw_request
  make_request_bounded endpoint o s h =
      settle_later _ 3 0 endpoint o _ s (λ e p. action_on-first e (sym (ap is_unauthorized p) ∙ h))
        (sent-by_method o.method endpoint o s)
        (λ lt t. later_attempts 2 1 endpoint o t (omega arith) (omega arith))

  settle_unauthorized :
      (again : Again http token_of) (o : Options D) (x : Result D × State W) (s : State W)
      → is_unauthorized x.0 ≡ true
      → x.1.sent ≤ s.sent + 1
      → Returns 4 (settle http token_of again refresh_endpoint o 0 x) s
  unfolding settle perform action_on handle_authentication_error handle_unless clear_token eq
  settle_unauthorized again o (ok b, t) s h k = cc
  settle_unauthorized again o (throw e, t) s h k =
      rw h ((throw authentication_required, clear_token t), refl, omega arith)

  -- The request for a new token always returns, within four requests.
  pub refresh_bounded :
      (o : Options D) (s : State W)
      → Returns 4 (make_request http token_of 4 refresh_endpoint o s) s
  unfolding make_request make_request_with_retry make_raw_request
  refresh_bounded o s =
      elim (is_unauthorized (make_raw_request http token_of refresh_endpoint o s).0)
          as (λ b.
            is_unauthorized (make_raw_request http token_of refresh_endpoint o s).0 ≡ b
            → Returns 4 (make_request http token_of 4 refresh_endpoint o s) s) [
              | true ↦
                  λ h. settle_unauthorized _ o _ s h (sent-by_method o.method refresh_endpoint o s)
              | false ↦ λ h. make_request_bounded refresh_endpoint o s h
            ]
        refl
