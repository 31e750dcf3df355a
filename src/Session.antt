-- ===== src/Session.antt =====
-- frontend/src/SessionManager.tsx: the check of the stored token, the countdown before it expires,
-- and what its dialog does; the logout of frontend/src/App.tsx. `expiry_in` stands for reading `exp`
-- in the text that `atob` and `JSON.parse` make of a payload, `none` where they throw or there is
-- none. Time is in milliseconds.
pub mod Safety
mod Tests
use sumurai.Prelude.{
  ℕ, ◌+◌, ◌-◌, ◌/◌, ◌≡◌, Bool, true, false, not, ◌&&◌, Option, none, some, List, [], ◌∷◌, map,
  if◌then◌else◌, leb, ltb, ◌==◌, get_or, ◌>>=◌, ◌<◌,
}
use sumurai.Prelude.Text.{Text, is_empty, split}

abbrev pub warning_threshold : ℕ
warning_threshold = 120

-- `token.split('.')[1]`
pub second_part : List Text → Option Text
second_part (a ∷ b ∷ ps) = some b
second_part _ = none

-- `replace(/-/g, '+').replace(/_/g, '/')`
pub from_base64_url : ℕ → ℕ
from_base64_url c = if c == b'-' then b'+' else if c == b'_' then b'/' else c

pub nonzero : ℕ → Option ℕ
nonzero n = if n == 0 then none else some n

-- `auth_token` in the storage, the dialog and its seconds, whether a refresh that the dialog has
-- asked for is on its way, how many logouts are (`onLogout` is `handleLogout` of App, which waits for
-- `AuthService.logout`), and whether one has come to its end, where App shows the login. Tokens that
-- the requests of the page renew for themselves are left out.
pub record SessionState : Type 0 where
  pub token : Option Text
  pub show_expiry_modal : Bool
  pub time_remaining : ℕ
  pub refreshing : Bool
  pub logging_out : ℕ
  pub logged_out : Bool

abbrev pub logged_in_with : Text → SessionState
logged_in_with t = record {
  token = some t;
  show_expiry_modal = false;
  time_remaining = 0;
  refreshing = false;
  logging_out = 0;
  logged_out = false;
}

pub is_expired_at : Option ℕ → ℕ → Bool
is_expired_at none now = true
is_expired_at (some expiry) now = leb expiry (now / 1000)

-- `onLogout()`, up to the answer of the server
pub on_logout : SessionState → SessionState
on_logout s = record s { logging_out = s.logging_out + 1 }

-- the end of `AuthService.logout`, whatever the answer was, and of `handleLogout` of App
pub finish_logout : SessionState → SessionState
finish_logout s = record s { token = none; logging_out = s.logging_out - 1; logged_out = true }

-- `sessionStorage.clear(); onLogout()`
pub expire : SessionState → SessionState
expire s = on_logout (record s { token = none })

pub warn : ℕ → SessionState → SessionState
warn left s =
    if leb left warning_threshold && ltb 0 left
    then record s { show_expiry_modal = true; time_remaining = left }
    else s

-- the timer that runs while the dialog is open and seconds remain
pub count_down : SessionState → SessionState
count_down s =
    let new_time = s.time_remaining - 1 in
    if new_time == 0
    then record (expire s) { time_remaining = 0 }
    else record s { time_remaining = new_time }

-- the button `Stay logged in`, up to the answer of the refresh
pub ask_for_refresh : SessionState → SessionState
ask_for_refresh s = record s { refreshing = true }

-- the answer, with a token that is not empty: `handleStayLoggedIn` of both components
pub stay_logged_in : Text → SessionState → SessionState
stay_logged_in t s = record s {
  token = some t;
  show_expiry_modal = false;
  time_remaining = 0;
  refreshing = false;
}

-- `handleSessionExpired`, when there is no token in the answer or no answer
pub fail_refresh : SessionState → SessionState
fail_refresh s = record (expire s) { show_expiry_modal = false; refreshing = false }

-- `handleLogout` of both components
pub handle_logout : SessionState → SessionState
handle_logout s = record (expire s) { show_expiry_modal = false }

module _ (expiry_in : Text → Option ℕ) where
  pub get_token_expiry_time : Text → Option ℕ
  get_token_expiry_time token = do
    part ← second_part (split (λ c. c == b'.') token)
    expiry ← expiry_in (map from_base64_url part)
    nonzero expiry

  pub is_token_expired : Text → ℕ → Bool
  is_token_expired token now = is_expired_at (get_token_expiry_time token) now

  pub get_time_until_expiry : Text → ℕ → ℕ
  get_time_until_expiry token now = get_or (get_token_expiry_time token) 0 - now / 1000

  -- an empty token is no token
  pub check_session_expiry : ℕ → SessionState → SessionState
  check_session_expiry now s =
      let token = get_or s.token [] in
      if is_empty token
      then on_logout s
      else if is_token_expired token now
      then expire s
      else warn (get_time_until_expiry token now) s
