-- ===== src/Connections/Updates.antt =====
-- frontend/src/hooks/usePlaidConnections.tsx: the callbacks, as changes of a map from ids to
-- connections.
use sumurai.Prelude.{
  ℕ, ◌≡◌, refl, ap, Bool, true, not, Option, none, some, List, [], ◌∷◌, ◌++◌, filter, or_else,
  arith, if◌then◌else◌,
}
use sumurai.Prelude.Int.{ℤ}
use sumurai.Prelude.Text.{Text, eq, eq_iff}
use sumurai.Http.{Thrown, Result, throw}
use sumurai.Connections.Normalizer.{BackendAccount}
use sumurai.Connections.{
  PlaidConnection, ConnectionsState, new_connection, add_connection, is_connection,
  remove_connection, synced, with_progress, change_connection, update_connection_sync_info,
  set_connection_sync_in_progress, find_connection, get_connection, fetch_connections, finish_fetch,
  start_fetch, message_of,
}

-- the map that the connections stand for
abbrev pub View : Type 0
View = Text → Option PlaidConnection

abbrev pub view : ConnectionsState → View
view s i = get_connection i s

abbrev pub changed_at : (PlaidConnection → PlaidConnection) → Text → View → View
changed_at f i v j = if eq i j then elim (v j) [ some c ↦ some (f c) | none ↦ none ] else v j

abbrev pub removed_at : Text → View → View
removed_at i v j = if eq i j then none else v j

-- an older connection of the same id comes first
abbrev pub added_at : PlaidConnection → View → View
added_at c v j = or_else (v j) (if eq c.connection_id j then some c else none)

find_connection-add :
    (cs : List PlaidConnection) (c : PlaidConnection) (j : Text)
    → find_connection j (cs ++ c ∷ [])
      ≡ or_else (find_connection j cs) (if eq c.connection_id j then some c else none)
unfolding find_connection is_connection
find_connection-add [] c j = ground arith
find_connection-add (d ∷ cs) c j = ground (arith, find_connection-add cs c j)

find_connection-filter :
    (cs : List PlaidConnection) (i j : Text)
    → find_connection j (filter (λ c. not (is_connection i c)) cs)
      ≡ (if eq i j then none else find_connection j cs)
unfolding find_connection is_connection
find_connection-filter [] i j = ground arith
find_connection-filter (d ∷ cs) i j = ground (
  arith,
  find_connection-filter cs i j,
  eq_iff d.connection_id i,
  eq_iff d.connection_id j,
  eq_iff i j,
)

find_connection-change :
    (f : PlaidConnection → PlaidConnection)
    → ((c : PlaidConnection) → (f c).connection_id ≡ c.connection_id)
    → (cs : List PlaidConnection) (i j : Text)
    → find_connection j (change_connection f i cs) ≡ changed_at f i (λ k. find_connection k cs) j
unfolding find_connection is_connection change_connection
find_connection-change f h [] i j = ground arith
find_connection-change f h (d ∷ cs) i j = ground (
  arith,
  find_connection-change f h cs i j,
  h d,
  eq_iff d.connection_id i,
  eq_iff d.connection_id j,
  eq_iff i j,
)

pub progress_found :
    (i : Text) (b : Bool) (s : ConnectionsState) (c : PlaidConnection)
    → get_connection i s ≡ some c
    → get_connection i (set_connection_sync_in_progress i b s) ≡ some (with_progress b c)
unfolding get_connection set_connection_sync_in_progress with_progress
progress_found i b s c h = ground (
  arith,
  h,
  find_connection-change (with_progress b) (λ c. refl) s.connections i i,
  (eq_iff i i).1 refl,
)

progress_kept :
    (b : Bool) (o : Option PlaidConnection) (c : PlaidConnection)
    → elim o [ some d ↦ some (with_progress b d) | none ↦ none ] ≡ some c
    → c.sync_in_progress ≡ b
unfolding with_progress
progress_kept b none c h = absurd (ground (arith, h))
progress_kept b (some d) c h = ground (arith, h)

pub progress_set :
    (i : Text) (b : Bool) (s : ConnectionsState) (c : PlaidConnection)
    → get_connection i (set_connection_sync_in_progress i b s) ≡ some c
    → c.sync_in_progress ≡ b
unfolding get_connection set_connection_sync_in_progress with_progress
progress_set i b s c h = progress_kept b (find_connection i s.connections) c (
    ground (
      arith,
      h,
      find_connection-change (with_progress b) (λ c. refl) s.connections i i,
      (eq_iff i i).1 refl,
    ))

pub failed_fetch :
    (to_cents to_count : Text → Option ℤ) (e : Thrown) (reply : Result (List BackendAccount))
    (s : ConnectionsState)
    → ((fetch_connections to_cents to_count true (throw e) reply (λ c. c) s).0.connections
        ≡ s.connections)
      × ((fetch_connections to_cents to_count true (throw e) reply (λ c. c) s).0.error
          ≡ some (message_of e))
unfolding fetch_connections finish_fetch start_fetch
failed_fetch to_cents to_count e reply s = (refl, refl)

pub get_connection-ap :
    (i : Text) (s t : ConnectionsState)
    → s.connections ≡ t.connections
    → get_connection i s ≡ get_connection i t
unfolding get_connection
get_connection-ap i s t h = ap (find_connection i) h

-- The callbacks act on the list as on a map from ids to connections: a removal takes the id out, the
-- two updates change what is under the id and nothing else, and an added connection comes under its id
-- unless one of that id is there already.
pub callbacks_refine :
    (to_cents to_count : Text → Option ℤ) (s : ConnectionsState) (i j institution at : Text)
    (transactions accounts : ℕ) (b : Bool) (reply : Result (List BackendAccount))
    → (view (remove_connection i s) j ≡ removed_at i (view s) j)
      × (view (update_connection_sync_info i transactions accounts at s) j
          ≡ changed_at (synced transactions accounts at) i (view s) j)
      × (view (set_connection_sync_in_progress i b s) j ≡ changed_at (with_progress b) i (view s) j)
      × (view (add_connection to_cents to_count institution i reply s) j
          ≡ added_at (new_connection to_cents to_count institution i reply) (view s) j)
unfolding get_connection remove_connection update_connection_sync_info
    set_connection_sync_in_progress add_connection synced with_progress
callbacks_refine to_cents to_count s i j institution at transactions accounts b reply = (
  find_connection-filter s.connections i j,
  find_connection-change (synced transactions accounts at) (λ c. refl) s.connections i j,
  find_connection-change (with_progress b) (λ c. refl) s.connections i j,
  find_connection-add s.connections (new_connection to_cents to_count institution i reply) j,
)
