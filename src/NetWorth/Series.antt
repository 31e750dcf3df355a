-- ===== src/NetWorth/Series.antt =====
-- frontend/src/features/analytics/hooks/useNetWorthSeries.ts: loads of the series that overlap, each as
-- a part up to its answer and a part after it. The range of dates is never empty.
pub mod Loads
use sumurai.Prelude.{
  ℕ, ◌+◌, Bool, true, false, not, Option, none, some, List, [], ◌∷◌, map, get_or, if◌then◌else◌,
  ◌==◌,
}
use sumurai.Prelude.Int.{ℤ, pos}
use sumurai.Prelude.Text.{Text, lit}
use sumurai.Http.{Thrown, api_error, plain_error, no_error, Result, ok, throw}
use sumurai.Accounts.{Value, number, text, other_value}
use sumurai.BudgetList.{AccountScope, nothing_selected}

-- a point of the response; a date that is missing is `none`
pub record RawPoint : Type 0 where
  pub date : Option Text
  pub value : Value

pub record NetWorthPoint : Type 0 where
  pub date : Text
  pub value : ℤ

-- `controller` is the number of the newest controller, `none` once it is aborted.
pub record SeriesState : Type 0 where
  pub series : List NetWorthPoint
  pub loading : Bool
  pub refreshing : Bool
  pub error : Option Text
  pub has_loaded : Bool
  pub controller : Option ℕ
  pub next : ℕ

-- a load that waits for its answer: the number of its controller, and `showBlockingState`
pub record Load : Type 0 where
  pub controller : ℕ
  pub blocking : Bool

abbrev pub initial_series : SeriesState
initial_series = record {
  series = [];
  loading = true;
  refreshing = false;
  error = none;
  has_loaded = false;
  controller = none;
  next = 0;
}

unfoldable pub begin_load : SeriesState → SeriesState
begin_load s = record s {
  controller = some s.next;
  next = s.next + 1;
  loading = if s.has_loaded then s.loading else true;
  refreshing = s.has_loaded;
  error = none;
}

-- the `finally` of a load that is not aborted
pub settle : Bool → SeriesState → SeriesState
settle blocking s = record s { loading = if blocking then false else s.loading; refreshing = false }

-- `load` up to its answer, with what waits for it
unfoldable pub start_series : AccountScope → SeriesState → SeriesState × Option Load
start_series scope s =
    if scope.accounts_loading
    then (record s { controller = none }, none)
    else if nothing_selected scope
    then (
      settle (not s.has_loaded) (record (begin_load s) { series = []; has_loaded = true }),
      none,
    )
    else (begin_load s, some (record { controller = s.next; blocking = not s.has_loaded }))

-- `ac.signal.aborted` is that this is false
pub is_current : Load → Option ℕ → Bool
is_current l none = false
is_current l (some n) = l.controller == n

pub series_message : Thrown → Text
series_message (api_error e) = e.message
series_message (plain_error m) = m
series_message no_error = lit "Failed to load net worth"

-- `to_number` stands for `Number(text)` in cents, with `none` where it is not finite, and `is_abort`
-- for the test on the name of an error.
module _ (to_number : Text → Option ℤ) (is_abort : Thrown → Bool) where
  pub point_value : Value → ℤ
  point_value (number n) = n
  point_value (text s) = get_or (to_number s) (pos 0)
  point_value other_value = pos 0

  pub to_point : RawPoint → NetWorthPoint
  to_point p = record { date = get_or p.date []; value = point_value p.value }

  -- an answer that is no array is `none`
  pub normalized : Option (List RawPoint) → List NetWorthPoint
  normalized none = []
  normalized (some points) = map to_point points

  pub take_answer : Result (Option (List RawPoint)) → SeriesState → SeriesState
  take_answer (ok raw) s = record s { series = normalized raw; has_loaded = true }
  take_answer (throw e) s =
      if is_abort e then s else record s { error = some (series_message e); series = [] }

  pub finish_series : Load → Result (Option (List RawPoint)) → SeriesState → SeriesState
  finish_series l reply s =
      if is_current l s.controller then settle l.blocking (take_answer reply s) else s
