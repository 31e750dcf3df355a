-- ===== src/NetWorth/Series/Loads.antt =====
-- frontend/src/features/analytics/hooks/useNetWorthSeries.ts: loads that overlap, as sequences of
-- steps.
use sumurai.Prelude.{
  ℕ, ◌+◌, ◌<◌, ◌≡◌, inl, inr, refl, ap, ◌∙◌, Bool, true, false, not, ◌||◌, ◌&&◌, Bool-cases, Option,
  none, some, List, [], ◌∷◌, filter, any, All, In, All-In, ◌==◌, arith,
}
use sumurai.Prelude.Int.{ℤ}
use sumurai.Prelude.Text.{Text}
use sumurai.Prelude.Members.{All_filter}
use sumurai.Http.{Thrown, Result, ok, throw}
use sumurai.BudgetList.{AccountScope, nothing_selected}
use sumurai.NetWorth.Series.{
  RawPoint, SeriesState, Load, initial_series, begin_load, settle, start_series, is_current,
  take_answer, finish_series,
}

-- the state of the hook, and the loads whose answers have not come
pub record Run : Type 0 where
  pub now : SeriesState
  pub waiting : List Load

abbrev pub run : SeriesState → List Load → Run
run s ls = record { now = s; waiting = ls }

abbrev pub and_load : Option Load → List Load → List Load
and_load none ls = ls
and_load (some l) ls = l ∷ ls

abbrev pub without_load : Load → List Load → List Load
without_load l ls = filter (λ m. not (m.controller == l.controller)) ls

abbrev pub after_start : SeriesState × Option Load → List Load → Run
after_start r ls = run r.0 (and_load r.1 ls)

abbrev pub is_busy : SeriesState → Bool
is_busy s = s.loading || s.refreshing

abbrev pub has_current : Run → Bool
has_current r = any (λ l. is_current l r.now.controller) r.waiting

module _ (to_number : Text → Option ℤ) (is_abort : Thrown → Bool) where
  -- A load starts while the accounts are known, or the answer to a load comes.
  pub data Step : Run → Run → Type 0 where
    started :
        (scope : AccountScope) (s : SeriesState) (ls : List Load)
        → scope.accounts_loading ≡ false
        → Step (run s ls) (after_start (start_series scope s) ls)
    answered :
        (l : Load) (reply : Result (Option (List RawPoint))) (s : SeriesState) (ls : List Load)
        → In l ls
        → Step (run s ls) (run (finish_series to_number is_abort l reply s) (without_load l ls))

  pub data Reach (start : Run) : Run → Type 0 where
    begin : Reach start start
    next : {r t : Run} → Reach start r → Step r t → Reach start t

-- what is known of a load that waits
abbrev Fits : SeriesState → Load → Type 0
Fits s l =
    (l.controller < s.next)
    × ((is_current l s.controller
          && ((l.blocking && s.has_loaded) || not (l.blocking || s.has_loaded)))
        ≡ false)

record IsSound (s : SeriesState) (ls : List Load) : Type 0 where
  fits : All (Fits s) ls
  known : (s.has_loaded && s.loading) ≡ false

record IsAwaited (r : Run) : Type 0 where
  sound : IsSound r.now r.waiting
  awaited : (is_busy r.now && not (has_current r)) ≡ false

-- a new controller is none of the loads that wait
older_fit :
    (s : SeriesState) (ls : List Load) (t : SeriesState)
    → t.controller ≡ some s.next
    → t.next ≡ s.next + 1
    → All (Fits s) ls
    → All (Fits t) ls
unfolding is_current
older_fit s [] t c n h = tt
older_fit s (l ∷ ls) t c n ((lt, f), h) =
    ((ground (arith, n, lt), ground (arith, c, lt)), older_fit s ls t c n h)

no_fetch-IsAwaited :
    (s : SeriesState) (ls : List Load)
    → IsSound s ls
    → IsAwaited (
        run
          (settle (not s.has_loaded) (record (begin_load s) { series = []; has_loaded = true }))
          ls)
unfolding settle begin_load
no_fetch-IsAwaited s ls v = record {
  sound = record {
    fits =
        older_fit s ls
          (settle (not s.has_loaded) (record (begin_load s) { series = []; has_loaded = true }))
          refl refl v.fits;
    known = ground (arith, v.known);
  };
  awaited = ground (arith, v.known);
}

fetch-IsAwaited :
    (s : SeriesState) (ls : List Load)
    → IsSound s ls
    → IsAwaited
        (run (begin_load s) (record { controller = s.next; blocking = not s.has_loaded } ∷ ls))
unfolding begin_load is_current
fetch-IsAwaited s ls v = record {
  sound = record {
    fits = ((omega arith, ground arith), older_fit s ls (begin_load s) refl refl v.fits);
    known = ground (arith, v.known);
  };
  awaited = ground arith;
}

start_series-IsAwaited :
    (scope : AccountScope) (s : SeriesState) (ls : List Load)
    → scope.accounts_loading ≡ false
    → IsSound s ls
    → IsAwaited (after_start (start_series scope s) ls)
unfolding start_series
start_series-IsAwaited scope s ls h v = elim (Bool-cases (nothing_selected scope)) [
  | inl e ↦ rw (e, h) (no_fetch-IsAwaited s ls v)
  | inr e ↦ rw (e, h) (fetch-IsAwaited s ls v)
]

other_load :
    (l m : Load) (c : Option ℕ)
    → is_current l c ≡ true
    → not (m.controller == l.controller) ≡ true
    → is_current m c ≡ false
unfolding is_current
other_load l m none h d = ground (arith, h)
other_load l m (some n) h d = ground (arith, h, d)

others_fit :
    (l : Load) (s t : SeriesState) (ls : List Load)
    → is_current l s.controller ≡ true
    → t.controller ≡ s.controller
    → t.next ≡ s.next
    → All (Fits s) ls
    → All (Fits t) (without_load l ls)
others_fit l s t ls h c n v =
    All_filter (Fits s) (Fits t) (λ m. not (m.controller == l.controller))
      (λ m d (lt, f). (ground (arith, n, lt), ground (arith, c, other_load l m s.controller h d)))
      ls v

fit_without :
    (l : Load) (s : SeriesState) (ls : List Load)
    → All (Fits s) ls
    → All (Fits s) (without_load l ls)
fit_without l s ls v =
    All_filter (Fits s) (Fits s) (λ m. not (m.controller == l.controller)) (λ m d f. f) ls v

current_without :
    (l : Load) (c : Option ℕ) (ls : List Load)
    → is_current l c ≡ false
    → any (λ m. is_current m c) (without_load l ls) ≡ any (λ m. is_current m c) ls
unfolding is_current
current_without l c [] h = refl
current_without l none (m ∷ ls) h = ground (arith, current_without l none ls h)
current_without l (some n) (m ∷ ls) h = ground (arith, current_without l (some n) ls h)

take_answer_same :
    (to_number : Text → Option ℤ) (is_abort : Thrown → Bool)
    (reply : Result (Option (List RawPoint))) (s : SeriesState)
    → let t = take_answer to_number is_abort reply s in
      (t.controller ≡ s.controller) × (t.next ≡ s.next) × (t.loading ≡ s.loading)
unfolding take_answer
take_answer_same to_number is_abort (ok raw) s = (refl, refl, refl)
take_answer_same to_number is_abort (throw e) s = elim (Bool-cases (is_abort e)) [
  | inl p ↦ rw p (refl, refl, refl)
  | inr p ↦ rw p (refl, refl, refl)
]

settled :
    (l : Load) (s t : SeriesState) (ls : List Load)
    → is_current l s.controller ≡ true
    → Fits s l
    → IsSound s ls
    → t.controller ≡ s.controller
    → t.next ≡ s.next
    → t.loading ≡ s.loading
    → IsAwaited (run (settle l.blocking t) (without_load l ls))
unfolding settle
settled l s t ls h (_, f) v c n k = record {
  sound = record {
    fits = others_fit l s (settle l.blocking t) ls h c n v.fits;
    known = ground (arith, h, f, v.known, k);
  };
  awaited = ground (arith, h, f, v.known, k);
}

answered-IsAwaited :
    (to_number : Text → Option ℤ) (is_abort : Thrown → Bool) (l : Load)
    (reply : Result (Option (List RawPoint))) (s : SeriesState) (ls : List Load)
    → Fits s l
    → IsAwaited (run s ls)
    → IsAwaited (run (finish_series to_number is_abort l reply s) (without_load l ls))
unfolding finish_series
answered-IsAwaited to_number is_abort l reply s ls f v =
    elim (Bool-cases (is_current l s.controller)) [
      | inl e ↦
          let (c, n, k) = take_answer_same to_number is_abort reply s in
          rw e (settled l s (take_answer to_number is_abort reply s) ls e f v.sound c n k)
      | inr e ↦ rw e (record {
        sound = record { fits = fit_without l s ls v.sound.fits; known = v.sound.known };
        awaited = rw (current_without l s.controller ls e) v.awaited;
      })
    ]

Step-IsAwaited :
    (to_number : Text → Option ℤ) (is_abort : Thrown → Bool) {r t : Run}
    → Step to_number is_abort r t
    → IsAwaited r
    → IsAwaited t
Step-IsAwaited to_number is_abort (started scope s ls h) v =
    start_series-IsAwaited scope s ls h v.sound
Step-IsAwaited to_number is_abort (answered l reply s ls i) v =
    answered-IsAwaited to_number is_abort l reply s ls (All-In (Fits s) l ls v.sound.fits i) v

Reach-IsAwaited :
    (to_number : Text → Option ℤ) (is_abort : Thrown → Bool) {start r : Run}
    → IsAwaited start
    → Reach to_number is_abort start r
    → IsAwaited r
Reach-IsAwaited to_number is_abort v begin = v
Reach-IsAwaited to_number is_abort v (next p q) =
    Step-IsAwaited to_number is_abort q (Reach-IsAwaited to_number is_abort v p)

-- Once the hook has started its first load, the series only counts as loading or refreshing while the
-- newest load waits for its answer: loads that overlap, in any order of their answers and failures,
-- never leave a mark behind. The accounts are taken to be known at every start.
pub busy_awaited :
    (to_number : Text → Option ℤ) (is_abort : Thrown → Bool) (scope : AccountScope) {r : Run}
    → scope.accounts_loading ≡ false
    → Reach to_number is_abort (after_start (start_series scope initial_series) []) r
    → (is_busy r.now && not (has_current r)) ≡ false
busy_awaited to_number is_abort scope h p =
    (Reach-IsAwaited to_number is_abort
      (start_series-IsAwaited scope initial_series [] h (record { fits = tt; known = refl }))
      p).awaited

stale :
    (to_number : Text → Option ℤ) (is_abort : Thrown → Bool) (l : Load)
    (reply : Result (Option (List RawPoint))) (s : SeriesState)
    → is_current l s.controller ≡ false
    → finish_series to_number is_abort l reply s ≡ s
unfolding finish_series
stale to_number is_abort l reply s h = rw h refl

controller_kept :
    (to_number : Text → Option ℤ) (is_abort : Thrown → Bool) (l : Load)
    (reply : Result (Option (List RawPoint))) (s : SeriesState)
    → (finish_series to_number is_abort l reply s).controller ≡ s.controller
unfolding finish_series settle
controller_kept to_number is_abort l reply s = elim (Bool-cases (is_current l s.controller)) [
  | inl e ↦ rw e (take_answer_same to_number is_abort reply s).0
  | inr e ↦ rw e refl
]

-- Of two loads that overlap, the later one decides: whichever answer comes first, the state in the end
-- is the one that the answer to the later load alone gives.
pub later_load_wins :
    (to_number : Text → Option ℤ) (is_abort : Thrown → Bool) (s : SeriesState)
    (one two : Result (Option (List RawPoint)))
    → let a : Load = record { controller = s.next; blocking = not s.has_loaded } in
      let b : Load = record { controller = s.next + 1; blocking = not s.has_loaded } in
      let both = begin_load (begin_load s) in
      (finish_series to_number is_abort b two (finish_series to_number is_abort a one both)
        ≡ finish_series to_number is_abort b two both)
      × (finish_series to_number is_abort a one (finish_series to_number is_abort b two both)
          ≡ finish_series to_number is_abort b two both)
unfolding begin_load is_current
later_load_wins to_number is_abort s one two =
    let a : Load = record { controller = s.next; blocking = not s.has_loaded } in
    let b : Load = record { controller = s.next + 1; blocking = not s.has_loaded } in
    let both = begin_load (begin_load s) in
    (
      ap (finish_series to_number is_abort b two)
          (stale to_number is_abort a one both (ground arith)),
      stale to_number is_abort a one (finish_series to_number is_abort b two both)
          (ap (is_current a) (controller_kept to_number is_abort b two both) ∙ ground arith),
    )
