-- ===== src/Auth/Calls.antt =====
-- frontend/src/services/authService.ts: how the calls of a session end.
use sumurai.Prelude.{ℕ, suc, ◌+◌, ◌≡◌, ◌≢◌, ◌≤◌, refl, true, false, none, some, [], get_or}
use sumurai.Prelude.Text.{Text, lit, eq, eq_iff, includes, starts_with, is_empty}
use sumurai.Http.{Thrown, Result, throw, plain_error, authentication_error}
use sumurai.Client.{
  HttpRequest, Options, State, get, post, refresh_endpoint, authentication_required, clear_token,
  make_raw_request, make_request,
}
use sumurai.Client.Retry.{is_unauthorized, make_request_bounded}
use sumurai.Client.Reauthentication.{
  after_first, refresh_options, make_request_unauthorized, make_request_no_token,
  required_is_authentication,
}
use sumurai.Auth.{says, login_error, map_error, validated, login, logout, validate_token}

module _ {W D : Type 0} (http : W → HttpRequest D → Result D × W) (token_of : D → Text) where
  abbrev pub logout_options : Options D
  logout_options = record { method = post; body = none; authorization = none }

  abbrev pub login_options : D → Options D
  login_options credentials = record {
    method = post;
    body = some credentials;
    authorization = none;
  }

  abbrev pub status_options : Options D
  status_options = record { method = get; body = none; authorization = none }

  -- A logout that is not answered by a 401 returns within four requests, and no token is left,
  -- whatever the server says.
  pub logout_clears :
      (s : State W)
      → is_unauthorized http token_of
          (make_raw_request http token_of (lit "/auth/logout") logout_options s).0
        ≡ false
      → (r : Result D) × (t : State W) × (logout http token_of 4 s ≡ some (r, t))
        × (t.token ≡ none)
        × (t.sent ≤ s.sent + 4)
  unfolding logout clear_token
  logout_clears s h =
      let ((r, t), e, n) =
        make_request_bounded http token_of (lit "/auth/logout") logout_options s h in
      (r, clear_token t, rw e refl, refl, n)

  login_apart : lit "/auth/login" ≢ refresh_endpoint
  unfolding eq
  login_apart p = let q = (eq_iff (lit "/auth/login") refresh_endpoint).1 p in cc q

  status_apart : lit "/providers/status" ≢ refresh_endpoint
  unfolding eq
  status_apart p = let q = (eq_iff (lit "/providers/status") refresh_endpoint).1 p in cc q

  required_login :
      login_error authentication_required ≡ plain_error (lit "Invalid email or password")
  unfolding login_error
  required_login = rw required_is_authentication refl

  required_silent : says (lit "401") authentication_required ≡ false
  unfolding says authentication_required authentication_error includes starts_with
  required_silent = refl

  required_validated :
      (s : State W)
      → validated {A = D} (throw authentication_required, clear_token s) ≡ (false, clear_token s)
  unfolding validated
  required_validated s = rw required_silent refl

  -- Without a session, a login that is answered by a 401 ends after that one request, with the message
  -- for a wrong email or password and with no token stored.
  pub login_unauthorized :
      (f : ℕ) (credentials : D) (s : State W)
      → is_unauthorized http token_of
          (make_raw_request http token_of (lit "/auth/login") (login_options credentials) s).0
        ≡ true
      → is_empty (
          get_or
            (after_first http token_of (lit "/auth/login") (login_options credentials) s).token
            [])
        ≡ true
      → login http token_of (suc f) credentials s
        ≡ some (
          throw (plain_error (lit "Invalid email or password")),
          clear_token (after_first http token_of (lit "/auth/login") (login_options credentials) s),
        )
  unfolding login map_error clear_token
  login_unauthorized f credentials s h k =
      rw
        (
          make_request_no_token http token_of f _ (login_options credentials) s login_apart h k,
          required_login,
        )
        refl

  -- A session whose check is answered by a 401, and then its refresh by an error, is not valid, and its
  -- token is removed.
  pub validate_token_unauthorized :
      (f : ℕ) (s t : State W) (e : Thrown)
      → is_unauthorized http token_of
          (make_raw_request http token_of (lit "/providers/status") status_options s).0
        ≡ true
      → is_empty
          (get_or (after_first http token_of (lit "/providers/status") status_options s).token [])
        ≡ false
      → make_request http token_of f refresh_endpoint
          (refresh_options http token_of)
          (after_first http token_of (lit "/providers/status") status_options s)
        ≡ some (throw e, t)
      → validate_token http token_of (suc f) s ≡ some (false, clear_token t)
  unfolding validate_token
  validate_token_unauthorized f s t e h k p =
      rw
        (
          make_request_unauthorized http token_of f _ status_options s (throw e) t status_apart h k
              p,
          required_validated,
        )
        refl
