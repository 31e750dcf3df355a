-- ===== src/Connections/Tests.antt =====
-- Runs of the connections.
use sumurai.Prelude.{◌≡◌, refl, true, false, Bool, Option, none, some, List, [], ◌∷◌, All}
use sumurai.Prelude.Int.{ℤ, pos}
use sumurai.Prelude.Text.{Text, lit}
use sumurai.Http.{ok}
use sumurai.Accounts.{number, text, other_value}
use sumurai.Connections.Normalizer.{IdField, string_id, number_id, BackendAccount}
use sumurai.Connections.{
  ProviderConnectionStatus, ConnectionsState, fetched_accounts, fetch_connections, new_connection,
  add_connection, remove_connection, update_connection_sync_info, set_connection_sync_in_progress,
  synced, with_progress,
}
use sumurai.Connections.Ownership.{IsOwned, fetch_connections-IsOwned}
use sumurai.Connections.Updates.{view, removed_at, changed_at, added_at, callbacks_refine}

abbrev no_number : Text → Option ℤ
no_number s = none

abbrev account_of : Text → Option IdField → BackendAccount
account_of i c = record {
  id = string_id i;
  name = some (lit "Everyday");
  account_name = none;
  official_name = none;
  institution_name = none;
  mask = none;
  account_mask = none;
  last_four = some (number_id 4242);
  last_four_camel = none;
  account_type = some (lit "depository");
  type_field = none;
  account_type_camel = none;
  subtype = none;
  balance_current = text (lit "abc");
  balance_ledger = number (pos 1500);
  current_balance = other_value;
  transaction_count = number (pos 7);
  provider_connection_id = c;
  connection_id = none;
  plaid_connection_id = none;
  provider_connection_id_camel = none;
  connection_id_camel = none;
}

abbrev accounts : List BackendAccount
accounts = account_of (lit "a") (some (string_id (lit "one"))) ∷ account_of (lit "b") none ∷ []

abbrev status_of : Text → Bool → ProviderConnectionStatus
status_of i connected = record {
  is_connected = connected;
  last_sync_at = none;
  institution_name = some (lit "Bank");
  connection_id = some i;
  transaction_count = 3;
  account_count = 1;
  sync_in_progress = false;
}

abbrev statuses : List ProviderConnectionStatus
statuses =
    status_of (lit "one") true ∷ status_of (lit "two") true ∷ status_of (lit "three") false ∷ []

abbrev start : ConnectionsState
start = record { connections = []; loading = true; error = none }

abbrev fetched : ConnectionsState
fetched =
    (fetch_connections no_number no_number true (ok (some statuses)) (ok accounts) (λ s. s) start).0

fetch_connections-IsOwned_example :
    All
      (IsOwned (fetched_accounts no_number no_number (ok accounts)))
      (fetch_connections no_number no_number true
        (ok (some statuses))
        (ok accounts)
        (λ s. s)
        start).0.connections
fetch_connections-IsOwned_example =
    fetch_connections-IsOwned no_number no_number statuses (ok accounts) (λ s. s) start
      (refl, (refl, (refl, tt)))

callbacks_refine_example :
    (view (remove_connection (lit "one") fetched) (lit "two")
      ≡ removed_at (lit "one") (view fetched) (lit "two"))
    × (view (update_connection_sync_info (lit "one") 9 2 (lit "2025-01-31") fetched) (lit "two")
        ≡ changed_at (synced 9 2 (lit "2025-01-31")) (lit "one") (view fetched) (lit "two"))
    × (view (set_connection_sync_in_progress (lit "one") true fetched) (lit "two")
        ≡ changed_at (with_progress true) (lit "one") (view fetched) (lit "two"))
    × (view
          (add_connection no_number no_number (lit "Bank") (lit "one") (ok accounts) fetched)
          (lit "two")
        ≡ added_at
            (new_connection no_number no_number (lit "Bank") (lit "one") (ok accounts))
            (view fetched)
            (lit "two"))
callbacks_refine_example =
    callbacks_refine no_number no_number fetched (lit "one") (lit "two") (lit "Bank")
      (lit "2025-01-31") 9 2 true (ok accounts)
