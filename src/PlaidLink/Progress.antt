-- ===== src/PlaidLink/Progress.antt =====
-- frontend/src/features/plaid/hooks/usePlaidLinkFlow.ts: the mark of a running sync, and what the
-- calls leave when the server refuses them.
use sumurai.Prelude.{
  ℕ, ◌+◌, ◌≡◌, refl, ◌∙◌, Bool, true, false, Option, none, some, List, inl, inr, ◌⊎◌,
}
use sumurai.Prelude.Int.{ℤ}
use sumurai.Prelude.Text.{Text, lit, or_text}
use sumurai.Http.{Thrown, Result, ok, throw, plain_error}
use sumurai.Connections.Normalizer.{BackendAccount}
use sumurai.Connections.{
  PlaidConnection, ConnectionsState, get_connection, set_connection_sync_in_progress, with_progress,
}
use sumurai.Connections.Updates.{progress_found, progress_set, failed_fetch, get_connection-ap}
use sumurai.PlaidLink.{
  LinkState, Answers, handle_error, clear_error, dispatch_accounts_changed, set_progress,
  sync_message, sync_failure, disconnect_failure, Disconnected, refresh, finish_sync, sync_one,
  refuse_disconnect, finish_disconnect, disconnect,
}

-- whether the list shows the connection as being synced
pub progress_of : Option PlaidConnection → Bool
progress_of none = false
progress_of (some c) = c.sync_in_progress

abbrev pub is_syncing : Text → LinkState → Bool
is_syncing i s = progress_of (get_connection i s.plaid_connections)

progress_of_set :
    (i : Text) (s : ConnectionsState) (o : Option PlaidConnection)
    → get_connection i (set_connection_sync_in_progress i false s) ≡ o
    → progress_of o ≡ false
unfolding progress_of
progress_of_set i s none h = refl
progress_of_set i s (some c) h = progress_set i false s c h

started :
    (to_cents to_count : Text → Option ℤ) (i : Text) (s : LinkState) (c : PlaidConnection)
    (reply : Result ℕ) (answers : Answers) (meanwhile : LinkState → LinkState)
    → get_connection i s.plaid_connections ≡ some c
    → sync_one to_cents to_count i reply answers meanwhile s
      ≡ finish_sync to_cents to_count i c reply answers
          (meanwhile (set_progress i true (clear_error s)))
unfolding sync_one
started to_cents to_count i s c reply answers meanwhile h = rw (sync_one, h) refl

stopped :
    (to_cents to_count : Text → Option ℤ) (i : Text) (s : LinkState) (c : PlaidConnection)
    (e : Thrown) (answers : Answers)
    → ((finish_sync to_cents to_count i c (throw e) answers s).error ≡ some (sync_failure c e))
      × (is_syncing i (finish_sync to_cents to_count i c (throw e) answers s) ≡ false)
unfolding finish_sync set_progress handle_error
stopped to_cents to_count i s c e answers = (refl, progress_of_set i s.plaid_connections _ refl)

unrefreshed :
    (to_cents to_count : Text → Option ℤ) (i : Text) (s : LinkState) (c : PlaidConnection)
    (count : ℕ) (e : Thrown) (reply : Result (List BackendAccount))
    → get_connection i s.plaid_connections ≡ some c
    → let t =
        finish_sync to_cents to_count i c
          (ok count)
          (record { status = throw e; accounts = reply })
          (set_progress i true (clear_error s)) in
      (get_connection i t.plaid_connections ≡ some (with_progress true c))
      × (t.error ≡ none)
      × (t.toast ≡ some (sync_message count c))
unfolding finish_sync refresh set_progress clear_error
unrefreshed to_cents to_count i s c count e reply h = (
  get_connection-ap i _ _
        (failed_fetch to_cents to_count e reply
          (set_connection_sync_in_progress i true s.plaid_connections)).0
      ∙ progress_found i true s.plaid_connections c h,
  refl,
  refl,
)

-- What a sync of a connection leaves. When the server refuses it, the error says so and the connection
-- no longer counts as being synced, whatever other calls did meanwhile. When it is done but the
-- connections cannot be loaded again, the connection still counts as being synced, while the toast
-- says that it is done and no error of the call is shown.
pub sync_one_lem :
    (to_cents to_count : Text → Option ℤ) (i : Text) (s : LinkState) (c : PlaidConnection)
    (count : ℕ) (e : Thrown) (reply : Result (List BackendAccount)) (answers : Answers)
    (meanwhile : LinkState → LinkState)
    → get_connection i s.plaid_connections ≡ some c
    → let refused = sync_one to_cents to_count i (throw e) answers meanwhile s in
      let unloaded : Answers = record { status = throw e; accounts = reply } in
      let done = sync_one to_cents to_count i (ok count) unloaded (λ t. t) s in
      (refused.error ≡ some (sync_failure c e))
      × (is_syncing i refused ≡ false)
      × (get_connection i done.plaid_connections ≡ some (with_progress true c))
      × (done.error ≡ none)
      × (done.toast ≡ some (sync_message count c))
sync_one_lem to_cents to_count i s c count e reply answers meanwhile h =
    let unloaded : Answers = record { status = throw e; accounts = reply } in
    let shown = meanwhile (set_progress i true (clear_error s)) in
    let (a, b) = stopped to_cents to_count i shown c e answers in
    let (d, f, g) = unrefreshed to_cents to_count i s c count e reply h in
    rw
      (
        started to_cents to_count i s c (throw e) answers meanwhile h,
        started to_cents to_count i s c (ok count) unloaded (λ t. t) h,
      )
      (a, b, d, f, g)

-- whether the server reports that the connection is gone
abbrev pub is_success : Result Disconnected → Bool
is_success (ok (b, m)) = b
is_success (throw e) = false

-- what a disconnection leaves of the state before its answer
abbrev pub Ends :
    Result Disconnected → PlaidConnection → LinkState → LinkState × Result (Unit {0}) → Type 0
Ends reply c before r =
    ((is_success reply ≡ true)
      × (r.1 ≡ ok tt)
      × (r.0.accounts_changed ≡ before.accounts_changed + 1))
    ⊎ ((is_success reply ≡ false)
        × (e : Thrown) × (r.1 ≡ throw e)
        × (r.0 ≡ record before { error = some (disconnect_failure c e) }))

finish_disconnect-Ends :
    (to_cents to_count : Text → Option ℤ) (c : PlaidConnection) (reply : Result Disconnected)
    (answers : Answers) (s : LinkState)
    → Ends reply c s (finish_disconnect to_cents to_count c reply answers s)
unfolding finish_disconnect refuse_disconnect handle_error refresh dispatch_accounts_changed
finish_disconnect-Ends to_cents to_count c (ok (true, m)) answers s = inl (refl, refl, refl)
finish_disconnect-Ends to_cents to_count c (ok (false, m)) answers s =
    inr (refl, plain_error (or_text m (lit "Connection was not disconnected")), refl, refl)
finish_disconnect-Ends to_cents to_count c (throw e) answers s = inr (refl, e, refl, refl)

-- A disconnection ends without an error exactly when the server reports its success, and then one
-- event of changed accounts is sent. Otherwise the error of the connection is shown and thrown, and
-- nothing else changes: the list of connections stays as it was before the answer.
pub disconnect-Ends :
    (to_cents to_count : Text → Option ℤ) (i : Text) (s : LinkState) (c : PlaidConnection)
    (reply : Result Disconnected) (answers : Answers) (meanwhile : LinkState → LinkState)
    → get_connection i s.plaid_connections ≡ some c
    → Ends reply c
        (meanwhile (clear_error s))
        (disconnect to_cents to_count i reply answers meanwhile s)
unfolding disconnect
disconnect-Ends to_cents to_count i s c reply answers meanwhile h =
    rw (disconnect, h)
      (finish_disconnect-Ends to_cents to_count c reply answers (meanwhile (clear_error s)))
