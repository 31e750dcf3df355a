-- ===== src/Auth/Tests.antt =====
-- Runs of the session calls.
use sumurai.Prelude.{ℕ, ◌≡◌, ◌≤◌, ◌+◌, refl, true, false, none, some, [], ◌∷◌, inl, length, get_or}
use sumurai.Prelude.Text.{Text, lit, is_empty}
use sumurai.Http.{Result, throw, api_error, plain_error, authentication_error}
use sumurai.Client.{HttpRequest, State, clear_token, make_raw_request}
use sumurai.Client.Evaluation.{clients}
use sumurai.Client.Retry.{is_unauthorized}
use sumurai.Client.Reauthentication.{after_first}
use sumurai.Auth.{login, logout}
use sumurai.Auth.Calls.{login_options, logout_options, logout_clears, login_unauthorized}
use sumurai.Auth.Refresh
use sumurai.Auth.Refresh.{RefreshState, refresh_token, finish_refresh, store_token}
use sumurai.Auth.Refresh.{perform_refresh, start_unless, join_or_start}
use sumurai.Auth.Refresh.Flights.{begin, next, asked, single_flight, clear_during_refresh}

abbrev wrong : ℕ → HttpRequest Text → Result Text × ℕ
wrong n r = (throw (api_error (authentication_error (lit "wrong"))), n + 1)

abbrev lost : ℕ → HttpRequest Text → Result Text × ℕ
lost n r = (throw (plain_error (lit "Failed to fetch")), n + 1)

abbrev own_token : Text → Text
own_token t = t

abbrev logged_out : State ℕ
logged_out = record { token = none; world = 0; sent = 0 }

abbrev logged_in : State ℕ
logged_in = record { token = some (lit "old"); world = 0; sent = 0 }

wrong_first :
    is_unauthorized wrong own_token
      (make_raw_request wrong own_token
        (lit "/auth/login")
        (login_options wrong own_token (lit "me"))
        logged_out).0
    ≡ true
unfolding clients
wrong_first = refl

still_out :
    is_empty (
      get_or
        (after_first wrong own_token
          (lit "/auth/login")
          (login_options wrong own_token (lit "me"))
          logged_out).token
        [])
    ≡ true
unfolding clients
still_out = refl

login_unauthorized_example :
    login wrong own_token 1 (lit "me") logged_out
    ≡ some (
      throw (plain_error (lit "Invalid email or password")),
      clear_token (
          after_first wrong own_token
            (lit "/auth/login")
            (login_options wrong own_token (lit "me"))
            logged_out),
    )
login_unauthorized_example =
    login_unauthorized wrong own_token 0 (lit "me") logged_out wrong_first still_out

lost_first :
    is_unauthorized lost own_token
      (make_raw_request lost own_token
        (lit "/auth/logout")
        (logout_options lost own_token)
        logged_in).0
    ≡ false
unfolding clients
lost_first = refl

logout_clears_example :
    (r : Result Text) × (t : State ℕ) × (logout lost own_token 4 logged_in ≡ some (r, t))
    × (t.token ≡ none)
    × (t.sent ≤ logged_in.sent + 4)
logout_clears_example = logout_clears lost own_token logged_in lost_first

abbrev idle : RefreshState
idle = record { token = some (lit "old"); refresh_promise = none; flights = []; next_flight = 0 }

abbrev one : RefreshState
one = (refresh_token idle).0

single_flight_example : length (refresh_token one).0.flights ≤ 1
single_flight_example =
    single_flight {start = idle} (inl (refl, refl)) (next (next begin (asked idle)) (asked one))

clear_during_refresh_example :
    ((refresh_token
        (store_token (lit "new") (Refresh.clear_token (refresh_token idle).0))).0.flights
      ≡ 0 ∷ 1 ∷ [])
    × ((finish_refresh 0
          (refresh_token (
            store_token
              (lit "new")
              (Refresh.clear_token (refresh_token idle).0))).0).refresh_promise
        ≡ none)
    × ((finish_refresh 0
          (refresh_token
            (store_token (lit "new") (Refresh.clear_token (refresh_token idle).0))).0).flights
        ≡ 1 ∷ [])
clear_during_refresh_example = clear_during_refresh idle (lit "new") refl refl refl refl
