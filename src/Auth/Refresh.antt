-- ===== src/Auth/Refresh.antt =====
-- frontend/src/services/authService.ts: `refreshToken`, called by several requests at once.
pub mod Flights
use sumurai.Prelude.{
  ℕ, Bool, true, false, not, Option, none, some, List, [], ◌∷◌, ◌++◌, ◌+◌, filter, ◌==◌,
  if◌then◌else◌, get_or,
}
use sumurai.Prelude.Text.{Text, is_empty}

-- The stored token, `refreshPromise` as the number of its request, the requests on their way, and the
-- number of the next one.
pub record RefreshState : Type 0 where
  pub token : Option Text
  pub refresh_promise : Option ℕ
  pub flights : List ℕ
  pub next_flight : ℕ

-- what a caller gets: the promise of a request, or the error that there is no token
pub data Waiting : Type 0 where
  waits_for : ℕ → Waiting
  no_token : Waiting

-- `performRefresh`, up to its answer
pub perform_refresh : RefreshState → RefreshState
perform_refresh s = record s {
  refresh_promise = some s.next_flight;
  flights = s.flights ++ s.next_flight ∷ [];
  next_flight = s.next_flight + 1;
}

-- the Boolean is the test that there is no token
pub start_unless : Bool → RefreshState → RefreshState × Waiting
start_unless true s = (s, no_token)
start_unless false s = (perform_refresh s, waits_for s.next_flight)

-- the tests of `refreshToken` on the promise
pub join_or_start : Option ℕ → RefreshState → RefreshState × Waiting
join_or_start (some n) s = (s, waits_for n)
join_or_start none s = start_unless (is_empty (get_or s.token [])) s

pub refresh_token : RefreshState → RefreshState × Waiting
refresh_token s = join_or_start s.refresh_promise s

-- The answer to a request, and the `finally` of the call that has made it.
pub finish_refresh : ℕ → RefreshState → RefreshState
finish_refresh n s = record s {
  refresh_promise = none;
  flights = filter (λ m. not (m == n)) s.flights;
}

pub store_token : Text → RefreshState → RefreshState
store_token t s = record s { token = some t }

pub clear_token : RefreshState → RefreshState
clear_token s = record s { token = none; refresh_promise = none }
