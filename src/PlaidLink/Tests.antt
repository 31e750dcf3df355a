-- ===== src/PlaidLink/Tests.antt =====
-- Runs of the calls on a connection.
use sumurai.Prelude.{◌≡◌, refl, true, false, Option, none, some, [], ◌∷◌}
use sumurai.Prelude.Int.{ℤ}
use sumurai.Prelude.Text.{Text, lit, eq}
use sumurai.Http.{no_error, ok, throw}
use sumurai.Connections.{
  PlaidConnection, get_connection, with_progress, find_connection, is_connection,
}
use sumurai.PlaidLink.{
  LinkState, Answers, clear_error, sync_failure, sync_message, sync_one, disconnect,
}
use sumurai.PlaidLink.Progress.{is_syncing, sync_one_lem, Ends, disconnect-Ends}

abbrev no_number : Text → Option ℤ
no_number s = none

abbrev connection : PlaidConnection
connection = record {
  connection_id = lit "one";
  institution_name = lit "Bank";
  last_sync_at = none;
  transaction_count = 3;
  account_count = 1;
  sync_in_progress = false;
  is_connected = true;
  accounts = [];
}

abbrev state : LinkState
state = record {
  plaid_connections = record { connections = connection ∷ []; loading = false; error = none };
  link_token = none;
  stored_link_token = none;
  error = some (lit "old");
  toast = none;
  accounts_changed = 0;
}

abbrev answers : Answers
answers = record { status = ok (some []); accounts = ok [] }

found : get_connection (lit "one") state.plaid_connections ≡ some connection
unfolding get_connection find_connection is_connection eq
found = refl

abbrev unloaded : Answers
unloaded = record { status = throw no_error; accounts = ok [] }

sync_one_lem_example :
    let refused =
      sync_one no_number no_number (lit "one") (throw no_error) answers (λ t. t) state in
    let done = sync_one no_number no_number (lit "one") (ok 4) unloaded (λ t. t) state in
    (refused.error ≡ some (sync_failure connection no_error))
    × (is_syncing (lit "one") refused ≡ false)
    × (get_connection (lit "one") done.plaid_connections ≡ some (with_progress true connection))
    × (done.error ≡ none)
    × (done.toast ≡ some (sync_message 4 connection))
sync_one_lem_example =
    sync_one_lem no_number no_number (lit "one") state connection 4 no_error (ok []) answers
      (λ t. t) found

disconnect-Ends_example :
    Ends
      (ok (true, none))
      connection
      (clear_error state)
      (disconnect no_number no_number (lit "one") (ok (true, none)) answers (λ t. t) state)
disconnect-Ends_example =
    disconnect-Ends no_number no_number (lit "one") state connection (ok (true, none)) answers
      (λ t. t) found
