-- ===== src/PlaidLink.antt =====
-- frontend/src/features/plaid/hooks/usePlaidLinkFlow.ts: connecting a bank, and the calls on one
-- connection, where the hook is enabled. The window of Plaid is not part of it, and the storage of the
-- session takes every write.
pub mod Progress
mod Tests
use sumurai.Prelude.{
  ℕ, ◌+◌, Bool, true, false, Option, none, some, List, [], ◌∷◌, ◌++◌, get_or, if◌then◌else◌,
}
use sumurai.Prelude.Int.{ℤ}
use sumurai.Prelude.Text.{Text, lit, or_text}
use sumurai.Http.{Thrown, api_error, plain_error, no_error, Result, ok, throw}
use sumurai.Dates.{number_text}
use sumurai.Connections.Normalizer.{BackendAccount}
use sumurai.Connections.{
  ProviderConnectionStatus, PlaidConnection, ConnectionsState, fetch_connections, get_connection,
  set_connection_sync_in_progress,
}

-- `accounts_changed` counts the events that `dispatchAccountsChanged` has sent.
pub record LinkState : Type 0 where
  pub plaid_connections : ConnectionsState
  pub link_token : Option Text
  pub stored_link_token : Option Text
  pub error : Option Text
  pub toast : Option Text
  pub accounts_changed : ℕ

-- the answers to the two requests of a refresh
pub record Answers : Type 0 where
  pub status : Result (Option (List ProviderConnectionStatus))
  pub accounts : Result (List BackendAccount)

-- `error instanceof Error ? error.message : 'Unknown error'`
pub error_text : Thrown → Text
error_text (api_error e) = e.message
error_text (plain_error m) = m
error_text no_error = lit "Unknown error"

pub handle_error : Text → LinkState → LinkState
handle_error message s = record s { error = some message }

pub clear_error : LinkState → LinkState
clear_error s = record s { error = none }

pub dispatch_accounts_changed : LinkState → LinkState
dispatch_accounts_changed s = record s { accounts_changed = s.accounts_changed + 1 }

pub set_progress : Text → Bool → LinkState → LinkState
set_progress i b s = record s {
  plaid_connections = set_connection_sync_in_progress i b s.plaid_connections;
}

pub sync_message : ℕ → PlaidConnection → Text
sync_message count c =
    lit "Synced " ++ number_text count ++ lit " new transactions from " ++ c.institution_name

pub sync_failure : PlaidConnection → Thrown → Text
sync_failure c e = lit "Sync failed for " ++ c.institution_name ++ lit ": " ++ error_text e

pub disconnect_failure : PlaidConnection → Thrown → Text
disconnect_failure c e =
    lit "Failed to disconnect " ++ c.institution_name ++ lit ": " ++ error_text e

-- what an exit of the window reports: an error with a message, another one, or none
pub data ExitError : Type 0 where
  with_message : Option Text → ExitError
  unknown_error : ExitError
  no_exit_error : ExitError

pub exit_message : ExitError → Option Text → Option Text → Option Text
exit_message (with_message m) status institution =
    some (lit "Plaid Link exited with error: " ++ or_text m (lit "Unknown error"))
exit_message unknown_error status institution = some (lit "Plaid Link exited with an unknown error")
exit_message no_exit_error none institution = none
exit_message no_exit_error (some []) institution = none
exit_message no_exit_error (some (c ∷ status)) institution = some (
    get_or institution (lit "the institution")
    ++ lit " was not connected because Plaid Link closed before setup finished. "
    ++ lit "Reopen Plaid Link and continue through the final confirmation ("
    ++ (c ∷ status)
    ++ lit ").")

pub handle_exit : ExitError → Option Text → Option Text → LinkState → LinkState
handle_exit e status institution s =
    let closed : LinkState = record s { stored_link_token = none; link_token = none } in
    elim (exit_message e status institution) [ some m ↦ handle_error m closed | none ↦ closed ]

-- `connect`, from the answer on
pub finish_connect : Result Text → LinkState → LinkState × Result (Unit {0})
finish_connect (ok token) s =
    (record s { stored_link_token = some token; link_token = some token }, ok tt)
finish_connect (throw e) s =
    (handle_error (lit "Failed to start bank connection: " ++ error_text e) s, throw e)

pub connect : Result Text → (LinkState → LinkState) → LinkState → LinkState × Result (Unit {0})
connect reply meanwhile s = finish_connect reply (meanwhile (clear_error s))

-- the toast of a new bank, by the answer to its first sync
pub connected_toast : Result ℕ → PlaidConnection → Text
connected_toast (ok count) c =
    lit "Bank connected! Synced " ++ number_text count ++ lit " transactions"
connected_toast (throw e) c = lit "Bank connected to " ++ c.institution_name

-- the answer to `disconnect`: whether it has succeeded, and a message
abbrev pub Disconnected : Type 0
Disconnected = Bool × Option Text

module _ (to_cents to_count : Text → Option ℤ) where
  -- no other call changes the connections during a refresh
  pub refresh : Answers → LinkState → LinkState × List PlaidConnection
  refresh answers s =
      let r =
        fetch_connections to_cents to_count true answers.status answers.accounts (λ c. c)
          s.plaid_connections in
      (record s { plaid_connections = r.0 }, r.1)

  pub first_sync : Result ℕ → Answers → LinkState × List PlaidConnection → LinkState
  first_sync reply answers (s, []) =
      dispatch_accounts_changed (record s { toast = some (lit "Bank connected successfully!") })
  first_sync reply answers (s, c ∷ cs) =
      dispatch_accounts_changed
        (refresh answers (record s { toast = some (connected_toast reply c) })).0

  pub finish_exchange : Result (Unit {0}) → Answers → Result ℕ → Answers → LinkState → LinkState
  finish_exchange (ok _) answers reply again s = first_sync reply again (refresh answers s)
  finish_exchange (throw e) answers reply again s =
      handle_error (lit "Failed to exchange token: " ++ error_text e) s

  -- the answers to the exchange, the refresh after it, the sync and the last refresh
  pub handle_success : Result (Unit {0}) → Answers → Result ℕ → Answers → LinkState → LinkState
  handle_success exchanged answers reply again s =
      finish_exchange exchanged answers reply again
        (clear_error (record s { stored_link_token = none }))

  pub finish_sync : Text → PlaidConnection → Result ℕ → Answers → LinkState → LinkState
  finish_sync i c (ok count) answers s =
      (refresh answers (record s { toast = some (sync_message count c) })).0
  finish_sync i c (throw e) answers s = set_progress i false (handle_error (sync_failure c e) s)

  pub sync_one : Text → Result ℕ → Answers → (LinkState → LinkState) → LinkState → LinkState
  sync_one i reply answers meanwhile s = elim (get_connection i s.plaid_connections) [
    | none ↦ s
    | some c ↦ finish_sync i c reply answers (meanwhile (set_progress i true (clear_error s)))
  ]

  pub refuse_disconnect : PlaidConnection → Thrown → LinkState → LinkState × Result (Unit {0})
  refuse_disconnect c e s = (handle_error (disconnect_failure c e) s, throw e)

  pub finish_disconnect :
      PlaidConnection → Result Disconnected → Answers → LinkState → LinkState × Result (Unit {0})
  finish_disconnect c (ok (true, m)) answers s = (
    dispatch_accounts_changed
        (refresh answers
          (record s { toast = some (c.institution_name ++ lit " disconnected successfully") })).0,
    ok tt,
  )
  finish_disconnect c (ok (false, m)) answers s =
      refuse_disconnect c (plain_error (or_text m (lit "Connection was not disconnected"))) s
  finish_disconnect c (throw e) answers s = refuse_disconnect c e s

  pub disconnect :
      Text
      → Result Disconnected
      → Answers
      → (LinkState → LinkState)
      → LinkState
      → LinkState × Result (Unit {0})
  disconnect i reply answers meanwhile s = elim (get_connection i s.plaid_connections) [
    | none ↦ (s, ok tt)
    | some c ↦ finish_disconnect c reply answers (meanwhile (clear_error s))
  ]
