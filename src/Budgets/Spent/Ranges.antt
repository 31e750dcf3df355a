-- ===== src/Budgets/Spent/Ranges.antt =====
-- frontend/src/domain/BudgetCalculator.ts: `calculateSpent` over adjacent ranges of dates.
use mathlib.Core.Option
use sumurai.Prelude.{
  ℕ, ◌+◌, ◌≤◌, ◌<◌, ◌≡◌, refl, sym, ◌∙◌, ap, inl, inr, Bool, true, not, ◌&&◌, Option, none, some,
  List, [], ◌∷◌, arith, if◌then◌else◌, Bool-cases,
}
use sumurai.Prelude.Int.{ℤ, pos, ◌+ℤ◌, zero-+ℤ, +ℤ_comm}
use sumurai.Prelude.Text.{Text, le_text}
use sumurai.Types.{Transaction}
use sumurai.Dates.{Date, iso, IsValid, parse_date, date_text, date, days_in_month}
use sumurai.Dates.Order.{le_text-iso, date_text-iso}
use sumurai.Dates.Parsing.{parse_date_sound, days_in_month-le}
use sumurai.Amounts.{get_net_spending_amount}
use sumurai.Budgets.{counts_towards, iso_day, in_range, calculate_spent}
use sumurai.Budgets.Spent.{share, ◌+?◌, +?_comm, +?_assoc, spent-cons, spent-nil}

-- Every valid date is either up to `last` or from `next` on; what is up to `last` is up to `end`,
-- and what is from `next` on is from `start` on.
pub record Splits (start last next end : Text) : Type 0 where
  pub apart : (d : Date) → IsValid d → le_text (iso d) last ≡ not (le_text next (iso d))
  pub early : (d : Date) → IsValid d → le_text (iso d) last ≡ true → le_text (iso d) end ≡ true
  pub late : (d : Date) → IsValid d → le_text next (iso d) ≡ true → le_text start (iso d) ≡ true

-- A day between `start` and `end` is in exactly one of the two parts.
pick_parts :
    (after_start before_end before_last after_next : Bool) (g : ℤ)
    → before_last ≡ not after_next
    → (before_last ≡ true → before_end ≡ true)
    → (after_next ≡ true → after_start ≡ true)
    → (if after_start && before_end then g else pos 0)
      ≡ (if after_start && before_last then g else pos 0)
        +ℤ (if after_next && before_end then g else pos 0)
pick_parts s e l n g apart early late =
    ground (arith, zero-+ℤ g, zero-+ℤ (pos 0), +ℤ_comm g (pos 0))

swap_middle : (a b x y : Option ℤ) → (a +? b) +? (x +? y) ≡ (a +? x) +? (b +? y)
swap_middle a b x y =
    +?_assoc a b (x +? y)
    ∙ ap (a +?◌) (sym (+?_assoc b x y) ∙ ap (◌+? y) (+?_comm b x) ∙ +?_assoc x b y)
    ∙ sym (+?_assoc a x (b +? y))

module _ {start last next end : Text} (splits : Splits start last next end) where
  open splits use {apart, early, late}

  day_parts :
      (g : ℤ) (d? : Option Date)
      → ((d : Date) → d? ≡ some d → IsValid d)
      → let pick : Text → Text → Option ℤ = λ from to.
        Option.map
          (λ keep. if keep then g else pos 0)
          (Option.map (λ day. le_text from day && le_text day to) (Option.map iso d?)) in
        pick start end ≡ pick start last +? pick next end
  unfolding ◌+?◌
  day_parts g none v = refl
  day_parts g (some d) v =
      let ok = v d refl in ap some (pick_parts _ _ _ _ g (apart d ok) (early d ok) (late d ok))

  share_parts :
      (category : Text) (sub : Option Text) (t : Transaction)
      → share category sub start end t
        ≡ share category sub start last t +? share category sub next end t
  unfolding share in_range iso_day
  share_parts category sub t = elim (Bool-cases (counts_towards category sub t)) [
    | inl e ↦ rw e (
        day_parts (get_net_spending_amount t) (parse_date t.date)
          (λ d e. (parse_date_sound t.date d e).1))
    | inr e ↦ rw e (unfold ◌+?◌ in ap some (sym (zero-+ℤ (pos 0))))
  ]

  -- The amount spent from `start` to `end` is the amount spent from `start` to `last` and the amount
  -- spent from `next` to `end`.
  pub calculate_spent_parts :
      (category : Text) (sub : Option Text) (ts : List Transaction)
      → calculate_spent ts category start end sub
        ≡ calculate_spent ts category start last sub +? calculate_spent ts category next end sub
  calculate_spent_parts category sub [] =
      rw
        (
          spent-nil category sub start end,
          spent-nil category sub start last,
          spent-nil category sub next end,
        )
        (unfold ◌+?◌ in ap some (sym (zero-+ℤ (pos 0))))
  calculate_spent_parts category sub (t ∷ ts) =
      rw
        (
          spent-cons category sub start end t ts,
          spent-cons category sub start last t ts,
          spent-cons category sub next end t ts,
          share_parts category sub t,
          calculate_spent_parts category sub ts,
        )
        (swap_middle _ _ _ _)

dates_split :
    (y from m to last : ℕ)
    → from ≤ m + 1
    → m < to
    → Splits
        (iso (date y from 1))
        (iso (date y m (days_in_month y m)))
        (iso (date y (m + 1) 1))
        (iso (date y to last))
dates_split y from m to last h k = record {
  apart = λ d v.
      rw (le_text-iso d (date y m (days_in_month y m)), le_text-iso (date y (m + 1) 1) d)
        (ground (arith, v.day_le, v.day_pos));
  early = λ d v.
      rw (le_text-iso d (date y m (days_in_month y m)), le_text-iso d (date y to last))
        (ground arith);
  late = λ d v.
      rw (le_text-iso (date y (m + 1) 1) d, le_text-iso (date y from 1) d)
        (ground (arith, v.day_pos));
}

-- The last day of a month and the first of the next month of the same year split any range that
-- starts in or before the next month and ends in the next month or later.
pub months_split :
    (y from m to : ℕ)
    → 1000 ≤ y
    → y < 10_000
    → from ≤ m + 1
    → m < to
    → to ≤ 12
    → Splits
        (date_text y from 1)
        (date_text y m (days_in_month y m))
        (date_text y (m + 1) 1)
        (date_text y to (days_in_month y to))
months_split y from m to hy ky h k kt =
    rw
      (
        date_text-iso y from 1 hy ky (omega arith) (omega arith),
        date_text-iso y m (days_in_month y m) hy ky (omega arith)
            (omega (arith, days_in_month-le y m)),
        date_text-iso y (m + 1) 1 hy ky (omega arith) (omega arith),
        date_text-iso y to (days_in_month y to) hy ky (omega arith)
            (omega (arith, days_in_month-le y to)),
      )
      (dates_split y from m to (days_in_month y to) h k)

-- Within a year, the amount spent from the first day of a month to the last day of a later month is
-- the amount spent up to the last day of any month between, and the amount spent from the first day
-- of the month after that one.
pub calculate_spent_months :
    (category : Text) (sub : Option Text) (ts : List Transaction) (y from m to : ℕ)
    → 1000 ≤ y
    → y < 10_000
    → from ≤ m + 1
    → m < to
    → to ≤ 12
    → let end = date_text y to (days_in_month y to) in
      calculate_spent ts category (date_text y from 1) end sub
      ≡ calculate_spent ts category (date_text y from 1) (date_text y m (days_in_month y m)) sub
        +? calculate_spent ts category (date_text y (m + 1) 1) end sub
calculate_spent_months category sub ts y from m to hy ky h k kt =
    calculate_spent_parts (months_split y from m to hy ky h k kt) category sub ts
