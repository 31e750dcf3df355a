-- ===== src/Connections/Ownership.antt =====
-- frontend/src/hooks/usePlaidConnections.tsx, with AccountNormalizer.ts: which accounts a connection
-- shows.
use sumurai.Prelude.{
  ◌≡◌, ◌↔◌, ◌⊎◌, inl, inr, refl, sym, ap, Bool, true, false, not, subst, Bool-cases, Option, none,
  some, List, [], ◌∷◌, map, filter, All, In, length, arith, if◌then◌else◌, ◌==◌,
}
use sumurai.Prelude.Members.{In-map, map-In, In-filter, filter-In}
use sumurai.Prelude.Int.{ℤ}
use sumurai.Prelude.Text.{Text, lit, eq, eq_iff, is_empty, or_text}
use sumurai.Http.{Result, ok}
use sumurai.Connections.Normalizer.{BackendAccount, NormalizedAccount, ShownAccount}
use sumurai.Connections.{
  ProviderConnectionStatus, PlaidConnection, ConnectionsState, has_key, has_no_key, keyed_accounts,
  matching_accounts, shown_accounts, to_connection, connections_of, fetched_accounts, finish_fetch,
  fetch_connections,
}

-- An account of the connection k, or one of no connection where k has none of its own.
pub record Belongs (k : Text) (all_accounts : List NormalizedAccount) (n : NormalizedAccount)
    : Type 0 where
  pub listed : In n all_accounts
  pub fits :
      (n.connection_key ≡ some k)
      ⊎ ((n.connection_key ≡ none) × All (λ m. has_key k m ≡ false) all_accounts)

-- The connection shows the accounts that belong to it, and no other.
abbrev pub IsOwned : List NormalizedAccount → PlaidConnection → Type 0
IsOwned all_accounts c =
    (a : ShownAccount)
    → In a c.accounts
      ↔ ((n : NormalizedAccount) × (n.shown ≡ a) × Belongs c.connection_id all_accounts n)

fits_key :
    (k : Text) (o : Option Text) → elim o [ some j ↦ eq j k | none ↦ false ] ≡ true → o ≡ some k
fits_key k none h = absurd (ground arith)
fits_key k (some j) h = ap some ((eq_iff j k).0 h)

has_key-true : (k : Text) (n : NormalizedAccount) → has_key k n ≡ true → n.connection_key ≡ some k
unfolding has_key
has_key-true k n h = fits_key k n.connection_key h

key-has_key : (k : Text) (n : NormalizedAccount) → n.connection_key ≡ some k → has_key k n ≡ true
unfolding has_key
key-has_key k n e = rw e ((eq_iff k k).1 refl)

no_key : (o : Option Text) → elim o [ some j ↦ false | none ↦ true ] ≡ true → o ≡ none
no_key none h = refl
no_key (some j) h = absurd (ground arith)

has_no_key-true : (n : NormalizedAccount) → has_no_key n ≡ true → n.connection_key ≡ none
unfolding has_no_key
has_no_key-true n h = no_key n.connection_key h

key-has_no_key : (n : NormalizedAccount) → n.connection_key ≡ none → has_no_key n ≡ true
unfolding has_no_key
key-has_no_key n e = rw e refl

none_left : {A : Type 0} (p : A → Bool) (xs : List A) → filter p xs ≡ [] → All (λ x. p x ≡ false) xs
none_left p [] h = tt
none_left p (x ∷ xs) h = elim (Bool-cases (p x)) [
  | inl e ↦ absurd (ground (arith, e, h))
  | inr e ↦ (e, none_left p xs (ground (arith, e, h)))
]

none_kept :
    {A : Type 0} (p : A → Bool) (xs : List A)
    → All (λ x. p x ≡ false) xs
    → (length (filter p xs) == 0) ≡ true
none_kept p [] h = ground arith
none_kept p (x ∷ xs) (e, h) = rw e (none_kept p xs h)

length_cases : {A : Type 0} (xs : List A) → (xs ≡ []) ⊎ ((length xs == 0) ≡ false)
length_cases [] = inl refl
length_cases (x ∷ xs) = inr (ground arith)

keyed_cases :
    (k : Text) (l : List NormalizedAccount)
    → ((keyed_accounts k l ≡ filter has_no_key l) × (filter (has_key k) l ≡ []))
      ⊎ ((keyed_accounts k l ≡ filter (has_key k) l)
          × ((length (filter (has_key k) l) == 0) ≡ false))
unfolding keyed_accounts
keyed_cases k l = elim (length_cases (filter (has_key k) l)) [
  | inl e ↦ inl (rw e refl, e)
  | inr e ↦ inr (rw e refl, e)
]

keyed_accounts-Belongs :
    (k : Text) (l : List NormalizedAccount) (n : NormalizedAccount)
    → In n (keyed_accounts k l)
    → Belongs k l n
keyed_accounts-Belongs k l n h = elim (keyed_cases k l) [
  | inl (e, z) ↦
      let (i, q) = In-filter has_no_key n l (subst (In n) e h) in
      record { listed = i; fits = inr (has_no_key-true n q, none_left (has_key k) l z) }
  | inr (e, _) ↦
      let (i, q) = In-filter (has_key k) n l (subst (In n) e h) in
      record { listed = i; fits = inl (has_key-true k n q) }
]

in_some : (xs : List NormalizedAccount) (n : NormalizedAccount) → In n xs → xs ≡ [] → true ≡ false
in_some [] n h e = absurd h
in_some (x ∷ xs) n h e = absurd (ground (arith, e))

kept :
    (k : Text) (l : List NormalizedAccount) (n : NormalizedAccount)
    → In n l
    → (n.connection_key ≡ some k) ⊎ ((n.connection_key ≡ none) × All (λ m. has_key k m ≡ false) l)
    → In n (keyed_accounts k l)
kept k l n i (inl e) = elim (keyed_cases k l) [
  | inl (f, z) ↦
      absurd (ground (arith, in_some _ n (filter-In (has_key k) n l i (key-has_key k n e)) z))
  | inr (f, _) ↦ subst (In n) (sym f) (filter-In (has_key k) n l i (key-has_key k n e))
]
kept k l n i (inr (e, h)) = elim (keyed_cases k l) [
  | inl (f, z) ↦ subst (In n) (sym f) (filter-In has_no_key n l i (key-has_no_key n e))
  | inr (f, z) ↦ absurd (ground (arith, none_kept (has_key k) l h, z))
]

Belongs-keyed_accounts :
    (k : Text) (l : List NormalizedAccount) (n : NormalizedAccount)
    → Belongs k l n
    → In n (keyed_accounts k l)
Belongs-keyed_accounts k l n b = kept k l n b.listed b.fits

-- a connection with an id shows what belongs to it
shown_accounts-IsOwned :
    (k : Text) (l : List NormalizedAccount) (a : ShownAccount)
    → is_empty k ≡ false
    → In a (shown_accounts (some k) l) ↔ ((n : NormalizedAccount) × (n.shown ≡ a) × Belongs k l n)
unfolding shown_accounts matching_accounts
shown_accounts-IsOwned [] l a h = absurd (ground (arith, h))
shown_accounts-IsOwned (c ∷ k) l a h = (
  λ i.
      let (n, e, j) = In-map (λ m. m.shown) a (keyed_accounts (c ∷ k) l) i in
      (n, e, keyed_accounts-Belongs (c ∷ k) l n j),
  λ (n, e, b).
      subst (λ x. In x (map (λ m. m.shown) (keyed_accounts (c ∷ k) l))) e
        (map-In (λ m. m.shown) n (keyed_accounts (c ∷ k) l) (Belongs-keyed_accounts (c ∷ k) l n b)),
)

-- whether the server gives an id for the connection
abbrev pub gives_id : Option Text → Bool
gives_id none = false
gives_id (some k) = not (is_empty k)

owned_by :
    (o : Option Text) (l : List NormalizedAccount) (a : ShownAccount)
    → gives_id o ≡ true
    → In a (shown_accounts o l)
      ↔ ((n : NormalizedAccount) × (n.shown ≡ a) × Belongs (or_text o (lit "unknown")) l n)
owned_by none l a h = absurd (ground (arith, h))
owned_by (some []) l a h = absurd (ground (arith, h))
owned_by (some (c ∷ k)) l a h = shown_accounts-IsOwned (c ∷ k) l a refl

All_if :
    {A : Type 0} (P : A → Type 0) (b : Bool) (x : A) (xs : List A)
    → P x
    → All P xs
    → All P (if b then x ∷ xs else xs)
All_if P true x xs h hs = (h, hs)
All_if P false x xs h hs = hs

map_if :
    {A B : Type 0} (f : A → B) (b : Bool) (x : A) (xs : List A)
    → map f (if b then x ∷ xs else xs) ≡ (if b then f x ∷ map f xs else map f xs)
map_if f true x xs = refl
map_if f false x xs = refl

connections_of-IsOwned :
    (l : List NormalizedAccount) (ss : List ProviderConnectionStatus)
    → All (λ s. gives_id s.connection_id ≡ true) ss
    → All (IsOwned l) (connections_of l ss)
unfolding connections_of to_connection
connections_of-IsOwned l [] h = tt
connections_of-IsOwned l (s ∷ ss) (h, hs) =
    subst (All (IsOwned l))
      (sym (map_if (to_connection l) s.is_connected s (filter (λ s. s.is_connected) ss)))
      (All_if (IsOwned l) s.is_connected (to_connection l s) (connections_of l ss)
        (λ a. owned_by s.connection_id l a h) (connections_of-IsOwned l ss hs))

-- After a fetch that the server answers, every connection that comes with an id shows exactly the
-- accounts that belong to it: those with its id, or, where none has it, those that have no id. The
-- accounts of another connection never show. This holds when every status has an id, and also when
-- the accounts cannot be fetched, where they count as none.
pub fetch_connections-IsOwned :
    (to_cents to_count : Text → Option ℤ) (statuses : List ProviderConnectionStatus)
    (reply : Result (List BackendAccount)) (meanwhile : ConnectionsState → ConnectionsState)
    (s : ConnectionsState)
    → All (λ st. gives_id st.connection_id ≡ true) statuses
    → All
        (IsOwned (fetched_accounts to_cents to_count reply))
        (fetch_connections to_cents to_count true
          (ok (some statuses))
          reply
          meanwhile
          s).0.connections
unfolding fetch_connections finish_fetch
fetch_connections-IsOwned to_cents to_count statuses reply meanwhile s h =
    connections_of-IsOwned (fetched_accounts to_cents to_count reply) statuses h
