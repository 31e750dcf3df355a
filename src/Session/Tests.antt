-- ===== src/Session/Tests.antt =====
-- Runs of a session.
use sumurai.Prelude.{ℕ, Option, ◌≡◌, refl, true, false, some}
use sumurai.Prelude.Text.{Text, lit, split}
use sumurai.Session.{
  SessionState, logged_in_with, second_part, from_base64_url, nonzero, get_token_expiry_time,
  is_expired_at, is_token_expired, get_time_until_expiry, expire, warn, check_session_expiry,
  ask_for_refresh, count_down, finish_logout, fail_refresh,
}

-- every token expires 1000 seconds after the epoch
abbrev at_1000 : Text → Option ℕ
at_1000 t = some 1000

abbrev token : Text
token = lit "header.payload.signature"

-- one second before
abbrev warned : SessionState
warned = check_session_expiry at_1000 999_500 (logged_in_with token)

abbrev waiting : SessionState
waiting = ask_for_refresh warned

-- the countdown ends, the refresh is refused, and both logouts come to their end
abbrev refused_late : SessionState
refused_late = fail_refresh (count_down waiting)

abbrev over : SessionState
over = finish_logout (finish_logout refused_late)

abbrev shown : SessionState
shown = record {
  token = some token;
  show_expiry_modal = true;
  time_remaining = 1;
  refreshing = true;
  logging_out = 0;
  logged_out = false;
}

waiting_run : waiting ≡ shown
unfolding split second_part from_base64_url nonzero get_token_expiry_time is_expired_at
    is_token_expired get_time_until_expiry expire warn check_session_expiry ask_for_refresh
waiting_run = refl
