-- ===== src/Transactions/Duplicates/Hidden.antt =====
-- frontend/src/features/transactions/hooks/useTransactions.ts: what hiding the duplicates keeps.
use sumurai.Prelude.{
  In, ◌≡◌, refl, ap, ◌⊎◌, inl, inr, Bool, true, false, not, ◌&&◌, ◌||◌, List, [], ◌∷◌, map, filter,
  any, arith, Bool-cases,
}
use sumurai.Prelude.Text.{Text, eq, contains}
use sumurai.Prelude.Sets.{NoDup, eq_refl, eq-ap, contains-append}
use sumurai.Types.{Transaction}
use sumurai.Transactions.Duplicates.{
  are_duplicate_candidates, is_pending, has_posted_match, is_candidate, add_id, candidates_from,
  duplicate_candidate_ids, active_transactions,
}

contains-add_id :
    (i j : Text) (is : List Text) → contains (add_id i is) j ≡ (contains is j || eq i j)
unfolding add_id
contains-add_id i j is = elim (Bool-cases (contains is i)) [
  | inl p ↦ ground (arith, eq-ap (contains is) i j)
  | inr p ↦ ground (arith, contains-append is (i ∷ []) j)
]

contains-candidates_from :
    (acc : List Text) (all ts : List Transaction) (i : Text)
    → contains (candidates_from acc all ts) i
      ≡ (contains acc i || any (λ t. is_candidate all t && eq t.id i) ts)
unfolding candidates_from
contains-candidates_from acc all [] i = ground arith
contains-candidates_from acc all (t ∷ ts) i = ground (
  arith,
  contains-candidates_from acc all ts i,
  contains-candidates_from (add_id t.id acc) all ts i,
  contains-add_id t.id i acc,
)

contains_id :
    (p : Transaction → Bool) (i : Text) (ts : List Transaction)
    → any (λ t. p t && eq t.id i) ts ≡ true
    → contains (map (λ t. t.id) ts) i ≡ true
contains_id p i [] h = h
contains_id p i (t ∷ ts) h = ground (arith, contains_id p i ts)

In-contains :
    (t : Transaction) (ts : List Transaction) → In t ts → contains (map (λ x. x.id) ts) t.id ≡ true
In-contains t [] h = absurd h
In-contains t (x ∷ xs) (inl e) = ground (arith, eq_refl x.id, ap (λ u. u.id) e)
In-contains t (x ∷ xs) (inr h) = ground (arith, In-contains t xs h)

-- With distinct ids, what holds of some transaction with the id of t holds of t.
unique_id :
    (p : Transaction → Bool) (t : Transaction) (ts : List Transaction)
    → NoDup (map (λ x. x.id) ts)
    → In t ts
    → any (λ x. p x && eq x.id t.id) ts ≡ true
    → p t ≡ true
unique_id p t [] n h k = absurd h
unique_id p t (x ∷ xs) (n, ns) (inl e) k =
    ground (arith, ap p e, contains_id p t.id xs, ap (λ u. contains (map (λ v. v.id) xs) u.id) e)
unique_id p t (x ∷ xs) (n, ns) (inr h) k = ground (
  arith,
  unique_id p t xs ns h,
  In-contains t xs h,
  eq-ap (contains (map (λ v. v.id) xs)) x.id t.id,
)

any-filter :
    (p q : Transaction → Bool) (ts : List Transaction)
    → any p (filter q ts) ≡ any (λ t. p t && q t) ts
any-filter p q [] = refl
any-filter p q (t ∷ ts) = ground (arith, any-filter p q ts)

any-weaken :
    (p q : Transaction → Bool) (ts : List Transaction)
    → ((t : Transaction) → In t ts → p t ≡ true → q t ≡ true)
    → any p ts ≡ true
    → any q ts ≡ true
any-weaken p q [] f h = h
any-weaken p q (t ∷ ts) f h = ground (arith, f t (inl refl), any-weaken p q ts (λ u i. f u (inr i)))

-- What hides a transaction is itself, when no two share an id.
hidden_candidate :
    (ts : List Transaction) (t : Transaction)
    → NoDup (map (λ x. x.id) ts)
    → In t ts
    → contains (duplicate_candidate_ids ts) t.id ≡ true
    → is_candidate ts t ≡ true
unfolding duplicate_candidate_ids
hidden_candidate ts t n h k =
    unique_id (is_candidate ts) t ts n h (ground (arith, contains-candidates_from [] ts ts t.id))

candidate_parts :
    (ts : List Transaction) (t : Transaction)
    → is_candidate ts t ≡ true
    → (is_pending t ≡ true) × (has_posted_match ts t ≡ true)
unfolding is_candidate
candidate_parts ts t h = ground arith

-- With distinct ids, every transaction is still shown, unless it is pending and some posted
-- transaction that looks like its copy is shown.
pub active_transactions_lem :
    (ts : List Transaction) (t : Transaction)
    → NoDup (map (λ x. x.id) ts)
    → In t ts
    → (contains (duplicate_candidate_ids ts) t.id ≡ false)
      ⊎ ((is_pending t ≡ true)
          × (any (λ c. not (is_pending c) && are_duplicate_candidates t c) (active_transactions ts)
              ≡ true))
unfolding active_transactions has_posted_match
active_transactions_lem ts t n h = elim (Bool-cases (contains (duplicate_candidate_ids ts) t.id)) [
  | inr q ↦ inl q
  | inl q ↦
      let (pending, matched) = candidate_parts ts t (hidden_candidate ts t n h q) in
      inr (
        pending,
        rw (any-filter _ _ ts) (
            any-weaken _ _ ts
              (λ c i p. ground (arith, hidden_candidate ts c n i, candidate_parts ts c)) matched),
      )
]
