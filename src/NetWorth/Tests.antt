-- ===== src/NetWorth/Tests.antt =====
-- Runs of the net worth chart.
use sumurai.Prelude.{ℕ, zero, suc, map, ◌≡◌, true, Option, none, List, [], ◌∷◌, length}
use sumurai.Prelude.Int.{ℤ, pos, neg}
use sumurai.NetWorth.{
  PointValue, finite, not_finite, missing, value_or_zero, same_value, is_change, changes_from,
  every, add_index, dot_stride, dots_of, change_indices, last_index, calculate_net_dot_indices,
}
use sumurai.Prelude.{refl, inl, Bool, false, not, ◌&&◌, In, inr}
use sumurai.Prelude.Text.{Text, lit}
use sumurai.Http.{Thrown, no_error, ok, throw}
use sumurai.BudgetList.{AccountScope, nothing_selected}
use sumurai.NetWorth.Series.{Load, initial_series, begin_load, start_series, finish_series}
use sumurai.NetWorth.Series.Loads.{
  Run, run, after_start, without_load, is_busy, has_current, started, answered, begin, next,
  busy_awaited, later_load_wins,
}

abbrev series : List PointValue
series =
    finite (pos 1000)
    ∷ finite (pos 1000)
    ∷ missing
    ∷ not_finite
    ∷ finite (pos 90_000)
    ∷ finite (neg (pos 5))
    ∷ []

changes_run : change_indices (map value_or_zero series) ≡ 2 ∷ 5 ∷ []
unfolding change_indices changes_from is_change same_value value_or_zero neg
changes_run = refl

-- two values, so many times
abbrev alternating : ℕ → List PointValue
alternating zero = finite (pos 1) ∷ []
alternating (suc n) = finite (pos 1) ∷ finite (pos 2) ∷ alternating n

-- sixty changes have a dot at every other one and at the last
most_dots_run : length (calculate_net_dot_indices (alternating 30)) ≡ 31
unfolding calculate_net_dot_indices dots_of dot_stride every add_index last_index change_indices
    changes_from is_change same_value value_or_zero
most_dots_run = refl

abbrev scope : AccountScope
scope = record {
  selected_account_ids = lit "a" ∷ [];
  is_all_accounts_selected = true;
  all_account_ids = lit "a" ∷ [];
  accounts_loading = false;
}

abbrev no_number : Text → Option ℤ
no_number s = none

abbrev no_abort : Thrown → Bool
no_abort e = false

abbrev first_load : Load
first_load = record { controller = 0; blocking = true }

abbrev started_twice : Run
started_twice =
    after_start (start_series scope (start_series scope initial_series).0)
      (after_start (start_series scope initial_series) []).waiting

-- the first load fails after a second one has started
abbrev failed_first : Run
failed_first =
    run (finish_series no_number no_abort first_load (throw no_error) started_twice.now)
      (without_load first_load started_twice.waiting)

started_waits : In first_load started_twice.waiting
unfolding start_series begin_load nothing_selected
started_waits = inr (inl refl)

busy_awaited_example : (is_busy failed_first.now && not (has_current failed_first)) ≡ false
busy_awaited_example = busy_awaited no_number no_abort scope {r = failed_first} refl (
    next
      (next begin (
        started scope (start_series scope initial_series).0
          (after_start (start_series scope initial_series) []).waiting refl))
      (answered first_load (throw no_error) started_twice.now started_twice.waiting started_waits))

later_load_wins_example :
    let a : Load = record { controller = 0; blocking = true } in
    let b : Load = record { controller = 1; blocking = true } in
    let both = begin_load (begin_load initial_series) in
    (finish_series no_number no_abort b
        (ok none)
        (finish_series no_number no_abort a (throw no_error) both)
      ≡ finish_series no_number no_abort b (ok none) both)
    × (finish_series no_number no_abort a
          (throw no_error)
          (finish_series no_number no_abort b (ok none) both)
        ≡ finish_series no_number no_abort b (ok none) both)
later_load_wins_example =
    later_load_wins no_number no_abort initial_series (throw no_error) (ok none)
