-- ===== src/Session/Safety.antt =====
-- frontend/src/SessionManager.tsx: the steps of a session, and what holds after them.
use sumurai.Prelude.{ℕ, ◌≤◌, ◌<◌, ◌≡◌, refl, true, false, Option, none, [], get_or, arith, ◌⊎◌, inl}
use sumurai.Prelude.Text.{Text}
use sumurai.Session.{
  SessionState, logged_in_with, warning_threshold, get_time_until_expiry, expire, warn,
  check_session_expiry, count_down, ask_for_refresh, stay_logged_in, fail_refresh, handle_logout,
  on_logout, finish_logout,
}

module _ (expiry_in : Text → Option ℕ) where
  -- What may happen next. The component checks and counts until a logout has come to its end; the
  -- answer to a refresh may come at any time while it is on its way, also after that end.
  pub data Step : SessionState → SessionState → Type 0 where
    checked :
        (now : ℕ) (s : SessionState)
        → s.logged_out ≡ false
        → Step s (check_session_expiry expiry_in now s)
    counted :
        (s : SessionState)
        → s.logged_out ≡ false
        → s.show_expiry_modal ≡ true
        → 0 < s.time_remaining
        → Step s (count_down s)
    asked :
        (s : SessionState)
        → s.logged_out ≡ false
        → s.show_expiry_modal ≡ true
        → Step s (ask_for_refresh s)
    answered : (t : Text) (s : SessionState) → s.refreshing ≡ true → Step s (stay_logged_in t s)
    refused : (s : SessionState) → s.refreshing ≡ true → Step s (fail_refresh s)
    left :
        (s : SessionState)
        → s.logged_out ≡ false
        → s.show_expiry_modal ≡ true
        → Step s (handle_logout s)
    ended : (s : SessionState) → 0 < s.logging_out → Step s (finish_logout s)

  pub data Reach (start : SessionState) : SessionState → Type 0 where
    begin : Reach start start
    next : {s u : SessionState} → Reach start s → Step s u → Reach start u

  -- An open dialog shows at most the threshold, and at least one second until a logout starts.
  abbrev pub IsWarning : SessionState → Type 0
  IsWarning s =
      (s.show_expiry_modal ≡ false)
      ⊎ ((s.time_remaining ≤ warning_threshold)
          × ((s.logged_out ≡ true) ⊎ ((0 < s.logging_out) ⊎ (0 < s.time_remaining))))

  warn-IsWarning : (n : ℕ) (s : SessionState) → IsWarning s → IsWarning (warn n s)
  unfolding warn
  warn-IsWarning n s h = ground arith

  Step-IsWarning : {s u : SessionState} → Step s u → IsWarning s → IsWarning u
  unfolding check_session_expiry count_down ask_for_refresh stay_logged_in fail_refresh
      handle_logout expire on_logout finish_logout
  Step-IsWarning (checked now s k) h =
      ground (arith, warn-IsWarning (get_time_until_expiry expiry_in (get_or s.token []) now) s h)
  Step-IsWarning (counted s k o p) h = ground arith
  Step-IsWarning (asked s k o) h = ground arith
  Step-IsWarning (answered t s k) h = ground arith
  Step-IsWarning (refused s k) h = ground arith
  Step-IsWarning (left s k o) h = ground arith
  Step-IsWarning (ended s k) h = ground arith

  -- Whatever happens in a session, an open dialog shows at most two minutes, and at least one second
  -- until a logout has started.
  pub Reach-IsWarning : (t : Text) (s : SessionState) → Reach (logged_in_with t) s → IsWarning s
  Reach-IsWarning t s begin = inl refl
  Reach-IsWarning t s (next r st) = Step-IsWarning st (Reach-IsWarning t _ r)

  -- A session that is over, with no token and no refresh on its way.
  abbrev pub IsOver : SessionState → Type 0
  IsOver s = (s.logged_out ≡ true) × (s.refreshing ≡ false) × (s.token ≡ none)
