-- ===== src/Connections.antt =====
-- frontend/src/hooks/usePlaidConnections.tsx: the connections to banks, and the accounts that each of
-- them shows. An answer of the server is an argument.
pub mod Normalizer
pub mod Ownership
pub mod Updates
mod Tests
use sumurai.Prelude.{
  ℕ, Bool, true, false, Option, none, some, List, [], ◌∷◌, ◌++◌, map, filter, not, if◌then◌else◌,
  length, ◌==◌,
}
use sumurai.Prelude.Int.{ℤ}
use sumurai.Prelude.Text.{Text, lit, eq, is_empty, or_text}
use sumurai.Http.{Thrown, api_error, plain_error, no_error, Result, ok, throw}
use Normalizer.{BackendAccount, NormalizedAccount, ShownAccount, normalize}

pub record ProviderConnectionStatus : Type 0 where
  pub is_connected : Bool
  pub last_sync_at : Option Text
  pub institution_name : Option Text
  pub connection_id : Option Text
  pub transaction_count : ℕ
  pub account_count : ℕ
  pub sync_in_progress : Bool

-- the fields `id` and `connectionId` of a connection are always the same
pub record PlaidConnection : Type 0 where
  pub connection_id : Text
  pub institution_name : Text
  pub last_sync_at : Option Text
  pub transaction_count : ℕ
  pub account_count : ℕ
  pub sync_in_progress : Bool
  pub is_connected : Bool
  pub accounts : List ShownAccount

pub record ConnectionsState : Type 0 where
  pub connections : List PlaidConnection
  pub loading : Bool
  pub error : Option Text

-- `acc.connectionKey === connectionId`
pub has_key : Text → NormalizedAccount → Bool
has_key k a = elim a.connection_key [ some j ↦ eq j k | none ↦ false ]

-- `acc.connectionKey === null`
pub has_no_key : NormalizedAccount → Bool
has_no_key a = elim a.connection_key [ some j ↦ false | none ↦ true ]

pub keyed_accounts : Text → List NormalizedAccount → List NormalizedAccount
keyed_accounts k all_accounts =
    let matching = filter (has_key k) all_accounts in
    if length matching == 0 then filter has_no_key all_accounts else matching

-- a connection id that is null, or an empty text, matches every account
pub matching_accounts : Option Text → List NormalizedAccount → List NormalizedAccount
matching_accounts i all_accounts =
    let k = or_text i [] in if is_empty k then all_accounts else keyed_accounts k all_accounts

pub shown_accounts : Option Text → List NormalizedAccount → List ShownAccount
shown_accounts i all_accounts = map (λ a. a.shown) (matching_accounts i all_accounts)

pub to_connection : List NormalizedAccount → ProviderConnectionStatus → PlaidConnection
to_connection all_accounts s = record {
  connection_id = or_text s.connection_id (lit "unknown");
  institution_name = or_text s.institution_name (lit "Unknown Bank");
  last_sync_at = s.last_sync_at;
  transaction_count = s.transaction_count;
  account_count = s.account_count;
  sync_in_progress = s.sync_in_progress;
  is_connected = s.is_connected;
  accounts = shown_accounts s.connection_id all_accounts;
}

pub connections_of : List NormalizedAccount → List ProviderConnectionStatus → List PlaidConnection
connections_of all_accounts statuses =
    map (to_connection all_accounts) (filter (λ s. s.is_connected) statuses)

pub message_of : Thrown → Text
message_of (api_error e) = e.message
message_of (plain_error m) = m
message_of no_error = lit "Failed to load connections"

pub start_fetch : ConnectionsState → ConnectionsState
start_fetch s = record s { loading = true; error = none }

module _ (to_cents to_count : Text → Option ℤ) where
  -- the accounts of an answer; no accounts of an error
  pub fetched_accounts : Result (List BackendAccount) → List NormalizedAccount
  fetched_accounts (ok accounts) = normalize to_cents to_count accounts
  fetched_accounts (throw e) = []

  -- the list of the status is `none` where it is no array
  pub finish_fetch :
      Result (Option (List ProviderConnectionStatus))
      → Result (List BackendAccount)
      → ConnectionsState
      → ConnectionsState × List PlaidConnection
  finish_fetch (ok (some statuses)) accounts s =
      let connections = connections_of (fetched_accounts accounts) statuses in
      (record { connections = connections; loading = false; error = none }, connections)
  finish_fetch (ok none) accounts s =
      (record { connections = []; loading = false; error = none }, [])
  finish_fetch (throw e) accounts s =
      (record s { loading = false; error = some (message_of e) }, [])

  pub fetch_connections :
      Bool
      → Result (Option (List ProviderConnectionStatus))
      → Result (List BackendAccount)
      → (ConnectionsState → ConnectionsState)
      → ConnectionsState
      → ConnectionsState × List PlaidConnection
  fetch_connections false status accounts meanwhile s =
      (record { connections = []; loading = false; error = none }, [])
  fetch_connections true status accounts meanwhile s =
      finish_fetch status accounts (meanwhile (start_fetch s))

  pub new_connection : Text → Text → Result (List BackendAccount) → PlaidConnection
  new_connection institution i accounts = record {
    connection_id = i;
    institution_name = institution;
    last_sync_at = none;
    transaction_count = 0;
    account_count = 0;
    sync_in_progress = false;
    is_connected = true;
    accounts = shown_accounts (some i) (fetched_accounts accounts);
  }

  pub add_connection :
      Text → Text → Result (List BackendAccount) → ConnectionsState → ConnectionsState
  add_connection institution i accounts s = record s {
    connections = s.connections ++ new_connection institution i accounts ∷ [];
    error = none;
  }

unfoldable pub is_connection : Text → PlaidConnection → Bool
is_connection i c = eq c.connection_id i

pub remove_connection : Text → ConnectionsState → ConnectionsState
remove_connection i s = record s {
  connections = filter (λ c. not (is_connection i c)) s.connections;
}

pub synced : ℕ → ℕ → Text → PlaidConnection → PlaidConnection
synced transactions accounts at c = record c {
  transaction_count = transactions;
  account_count = accounts;
  last_sync_at = some at;
  sync_in_progress = false;
}

pub with_progress : Bool → PlaidConnection → PlaidConnection
with_progress b c = record c { sync_in_progress = b }

-- the change, for the connections with the id
pub change_connection :
    (PlaidConnection → PlaidConnection) → Text → List PlaidConnection → List PlaidConnection
change_connection f i cs = map (λ c. if is_connection i c then f c else c) cs

pub update_connection_sync_info : Text → ℕ → ℕ → Text → ConnectionsState → ConnectionsState
update_connection_sync_info i transactions accounts at s = record s {
  connections = change_connection (synced transactions accounts at) i s.connections;
}

pub set_connection_sync_in_progress : Text → Bool → ConnectionsState → ConnectionsState
set_connection_sync_in_progress i b s = record s {
  connections = change_connection (with_progress b) i s.connections;
}

unfoldable pub find_connection : Text → List PlaidConnection → Option PlaidConnection
find_connection i [] = none
find_connection i (c ∷ cs) =
    let rest = find_connection i cs in if is_connection i c then some c else rest

unfoldable pub get_connection : Text → ConnectionsState → Option PlaidConnection
get_connection i s = find_connection i s.connections
