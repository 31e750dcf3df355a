-- ===== src/Auth/Refresh/Flights.antt =====
-- frontend/src/services/authService.ts: how many refreshes are on their way at once.
use sumurai.Prelude.{
  ℕ, ◌+◌, ◌≡◌, ◌≤◌, refl, ap, ◌⊎◌, inl, inr, Bool, true, false, not, Option, none, some, List, [],
  ◌∷◌, length, any, filter, ◌==◌, get_or, arith,
}
use sumurai.Prelude.Text.{Text, is_empty}
use sumurai.Auth.Refresh.{
  RefreshState, perform_refresh, start_unless, join_or_start, refresh_token, finish_refresh,
  store_token, clear_token,
}

abbrev pub is_flying : ℕ → RefreshState → Bool
is_flying n s = any (λ m. m == n) s.flights

-- What the calls do, in any order. `refused` is an answer of 401 to a refresh, which clears the token;
-- another call clears it only while no refresh is on its way.
pub data Step : RefreshState → RefreshState → Type 0 where
  asked : (s : RefreshState) → Step s (refresh_token s).0
  answered : (n : ℕ) (s : RefreshState) → is_flying n s ≡ true → Step s (finish_refresh n s)
  refused :
      (n : ℕ) (s : RefreshState) → is_flying n s ≡ true → Step s (finish_refresh n (clear_token s))
  stored : (t : Text) (s : RefreshState) → Step s (store_token t s)
  cleared : (s : RefreshState) → s.flights ≡ [] → Step s (clear_token s)

pub data Reach (start : RefreshState) : RefreshState → Type 0 where
  begin : Reach start start
  next : {s t : RefreshState} → Reach start s → Step s t → Reach start t

-- No refresh is on its way, or the one that the promise stands for.
abbrev pub IsSingle : RefreshState → Type 0
IsSingle s =
    ((s.refresh_promise ≡ none) × (s.flights ≡ []))
    ⊎ ((n : ℕ) × (s.refresh_promise ≡ some n) × (s.flights ≡ n ∷ []))

start_unless-IsSingle :
    (b : Bool) (s : RefreshState)
    → s.refresh_promise ≡ none
    → s.flights ≡ []
    → IsSingle (start_unless b s).0
unfolding start_unless perform_refresh
start_unless-IsSingle true s p f = inl (p, f)
start_unless-IsSingle false s p f = inr (s.next_flight, refl, rw f refl)

join_or_start-IsSingle :
    (o : Option ℕ) (s : RefreshState)
    → s.refresh_promise ≡ o
    → IsSingle s
    → IsSingle (join_or_start o s).0
unfolding join_or_start
join_or_start-IsSingle (some n) s e v = v
join_or_start-IsSingle none s e (inl (p, f)) = start_unless-IsSingle _ s p f
join_or_start-IsSingle none s e (inr (n, p, f)) = absurd (ground (arith, e, p))

finished :
    (n m : ℕ) (l : List ℕ)
    → any (λ k. k == n) l ≡ true
    → l ≡ m ∷ []
    → filter (λ k. not (k == n)) l ≡ []
finished n m l h e = rw e (ground (arith, h, ap (any (λ k. k == n)) e))

none_flies : (n : ℕ) (l : List ℕ) → l ≡ [] → filter (λ k. not (k == n)) l ≡ []
none_flies n l e = rw e refl

finish_refresh-IsSingle :
    (n : ℕ) (s : RefreshState) → is_flying n s ≡ true → IsSingle s → IsSingle (finish_refresh n s)
unfolding finish_refresh
finish_refresh-IsSingle n s h (inl (p, f)) = inl (refl, none_flies n s.flights f)
finish_refresh-IsSingle n s h (inr (m, p, f)) = inl (refl, finished n m s.flights h f)

Step-IsSingle : {s t : RefreshState} → Step s t → IsSingle s → IsSingle t
unfolding store_token clear_token refresh_token finish_refresh
Step-IsSingle (asked s) v = join_or_start-IsSingle s.refresh_promise s refl v
Step-IsSingle (answered n s h) v = finish_refresh-IsSingle n s h v
Step-IsSingle (refused n s h) (inl (p, f)) = inl (refl, none_flies n s.flights f)
Step-IsSingle (refused n s h) (inr (m, p, f)) = inl (refl, finished n m s.flights h f)
Step-IsSingle (stored t s) v = v
Step-IsSingle (cleared s e) v = inl (refl, e)

single-length : (s : RefreshState) → IsSingle s → length s.flights ≤ 1
single-length s (inl (p, f)) = rw f (omega arith)
single-length s (inr (n, p, f)) = rw f (omega arith)

Reach-IsSingle : {start s : RefreshState} → IsSingle start → Reach start s → IsSingle s
Reach-IsSingle v begin = v
Reach-IsSingle v (next p q) = Step-IsSingle q (Reach-IsSingle v p)

-- However many calls ask for a new token, at most one refresh is on its way at any time, as long as
-- the token is not cleared from outside meanwhile.
pub single_flight : {start s : RefreshState} → IsSingle start → Reach start s → length s.flights ≤ 1
single_flight {s} v p = single-length s (Reach-IsSingle v p)

-- A logout during a refresh, and a login after it: a second refresh starts beside the first, and the
-- answer to the first forgets the promise of the second, which is still on its way.
pub clear_during_refresh :
    (s : RefreshState) (t : Text)
    → is_empty (get_or s.token []) ≡ false
    → is_empty t ≡ false
    → s.refresh_promise ≡ none
    → s.flights ≡ []
    → let again = (refresh_token (store_token t (clear_token (refresh_token s).0))).0 in
      (again.flights ≡ s.next_flight ∷ (s.next_flight + 1) ∷ [])
      × ((finish_refresh s.next_flight again).refresh_promise ≡ none)
      × ((finish_refresh s.next_flight again).flights ≡ (s.next_flight + 1) ∷ [])
unfolding refresh_token join_or_start start_unless perform_refresh store_token clear_token
    finish_refresh
clear_during_refresh s t h k p f = ground (arith, p, h, k, f)
