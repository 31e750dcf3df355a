-- ===== src/Budgets/Spent.antt =====
-- frontend/src/domain/BudgetCalculator.ts: laws of `calculateSpent` on its list of transactions.
pub mod Ranges
use mathlib.Core.Option
use mathlib.Core.List.{Perm, Permᴰ}
use mathlib.Core.Logic.{∥∥₁_elim}
use sumurai.Prelude.{
  ℕ, suc, ◌≡◌, refl, sym, ◌∙◌, ap, inl, inr, Bool, true, false, not, ◌&&◌, Option, none, some, List,
  [], ◌∷◌, ◌++◌, arith, if◌then◌else◌, filter, Bool-cases, Option-cases, ◌>>=◌,
}
use sumurai.Prelude.Int.{ℤ, pos, ◌+ℤ◌, int_laws, +ℤ_assoc, +ℤ_comm, zero-+ℤ}
use sumurai.Prelude.Text.{Text, le_text}
use sumurai.Types.{Transaction}
use sumurai.Dates.{Date, iso, IsValid}
use sumurai.Amounts.{get_net_spending_amount}
use sumurai.Budgets.{counts_towards, iso_day, in_range, filter_range, sum_spending, calculate_spent}

Option_ℤ-set : IsSet (Option ℤ)
Option_ℤ-set = hlevel

-- What one transaction adds to the sum.
pub share : Text → Option Text → Text → Text → Transaction → Option ℤ
share category sub start end t =
    if counts_towards category sub t
    then Option.map (λ keep. if keep then get_net_spending_amount t else pos 0)
        (in_range start end t)
    else some (pos 0)

-- The sum of optional numbers, none if one is.
infixl 65 ◌+?◌
pub ◌+?◌ : Option ℤ → Option ℤ → Option ℤ
none +? o = none
some a +? none = none
some a +? some b = some (a +ℤ b)

pub +?-some : (a b : ℤ) → some a +? some b ≡ some (a +ℤ b)
unfolding ◌+?◌
+?-some a b = refl

pub +?_comm : (a b : Option ℤ) → a +? b ≡ b +? a
unfolding ◌+?◌
+?_comm none none = refl
+?_comm none (some b) = refl
+?_comm (some a) none = refl
+?_comm (some a) (some b) = ap some (+ℤ_comm a b)

pub +?_assoc : (a b c : Option ℤ) → a +? b +? c ≡ a +? (b +? c)
unfolding ◌+?◌
+?_assoc none b c = refl
+?_assoc (some a) none c = refl
+?_assoc (some a) (some b) none = refl
+?_assoc (some a) (some b) (some c) = ap some (+ℤ_assoc a b c)

pub zero_share : (o : Option ℤ) → o ≡ some (pos 0) +? o
unfolding ◌+?◌
zero_share none = refl
zero_share (some a) = ap some (sym (zero-+ℤ a))

sum_spending_from :
    (sum : ℤ) (ts : List Transaction) → sum_spending sum ts ≡ sum +ℤ sum_spending (pos 0) ts
unfolding sum_spending
sum_spending_from sum [] = omega int_laws
sum_spending_from sum (t ∷ ts) =
    let g = get_net_spending_amount t in
    rw (sum_spending_from (sum +ℤ g) ts, sum_spending_from (pos 0 +ℤ g) ts) (omega int_laws)

sum_spending-cons :
    (t : Transaction) (ts : List Transaction)
    → sum_spending (pos 0) (t ∷ ts) ≡ get_net_spending_amount t +ℤ sum_spending (pos 0) ts
unfolding sum_spending
sum_spending-cons t ts =
    let g = get_net_spending_amount t in
    sum_spending_from (pos 0 +ℤ g) ts ∙ ap (λ a. a +ℤ sum_spending (pos 0) ts) (zero-+ℤ g)

-- One round of the second filter and of the sum.
kept_share :
    (t : Transaction) (keep? : Option Bool) (rest : Option (List Transaction))
    → Option.map
        (sum_spending (pos 0))
        (keep? >>= λ keep. rest >>= λ kept. some (if keep then t ∷ kept else kept))
      ≡ Option.map (λ keep. if keep then get_net_spending_amount t else pos 0) keep?
        +? Option.map (sum_spending (pos 0)) rest
unfolding ◌+?◌ sum_spending
kept_share t none rest = refl
kept_share t (some keep) none = refl
kept_share t (some true) (some kept) = ap some (sum_spending-cons t kept)
kept_share t (some false) (some kept) = ap some (sym (zero-+ℤ (sum_spending (pos 0) kept)))

module _ (category : Text) (sub : Option Text) (start end : Text) where
  abbrev pub spent : List Transaction → Option ℤ
  spent ts = calculate_spent ts category start end sub

  pub spent-cons :
      (t : Transaction) (ts : List Transaction)
      → spent (t ∷ ts) ≡ share category sub start end t +? spent ts
  unfolding calculate_spent share filter_range
  spent-cons t ts = elim (Bool-cases (counts_towards category sub t)) [
    | inl e ↦ rw e (
        kept_share t (in_range start end t)
          (filter_range start end (filter (counts_towards category sub) ts)))
    | inr e ↦ rw e (zero_share (spent ts))
  ]

  pub spent-nil : spent [] ≡ some (pos 0)
  unfolding calculate_spent filter_range sum_spending
  spent-nil = refl

  spent-append : (ts us : List Transaction) → spent (ts ++ us) ≡ spent ts +? spent us
  spent-append [] us = rw spent-nil (zero_share (spent us))
  spent-append (t ∷ ts) us =
      rw (spent-cons t (ts ++ us), spent-cons t ts, spent-append ts us) (sym (+?_assoc _ _ _))

  spent-swap : (t u : Transaction) (ts : List Transaction) → spent (t ∷ u ∷ ts) ≡ spent (u ∷ t ∷ ts)
  spent-swap t u ts =
      let a = share category sub start end t in
      let b = share category sub start end u in
      rw (spent-cons t (u ∷ ts), spent-cons u ts, spent-cons u (t ∷ ts), spent-cons t ts)
        (sym (+?_assoc a b (spent ts))
          ∙ ap (λ x. x +? spent ts) (+?_comm a b)
          ∙ +?_assoc b a (spent ts))

  spent-Permᴰ : {ts us : List Transaction} → Permᴰ ts us → spent ts ≡ spent us
  spent-Permᴰ Permᴰ.nil = refl
  spent-Permᴰ (Permᴰ.cons {a} {b} {l₁} {l₂} e p) =
      rw e (rw (spent-cons b l₁, spent-cons b l₂, spent-Permᴰ p))
  spent-Permᴰ (Permᴰ.swap {a} {b} {l} e f) = rw (e, f) (spent-swap _ _ l)
  spent-Permᴰ (Permᴰ.trans p q) = spent-Permᴰ p ∙ spent-Permᴰ q

-- The amount spent over two lists, one behind the other, is the sum of the amounts spent over each.
-- There is none exactly when one of the two has none.
pub calculate_spent-append :
    (category : Text) (sub : Option Text) (start end : Text) (ts us : List Transaction)
    → calculate_spent (ts ++ us) category start end sub
      ≡ calculate_spent ts category start end sub +? calculate_spent us category start end sub
calculate_spent-append = spent-append

-- The amount spent does not depend on the order of the transactions.
pub calculate_spent-Perm :
    (category : Text) (sub : Option Text) (start end : Text) (ts us : List Transaction)
    → Perm ts us
    → calculate_spent ts category start end sub ≡ calculate_spent us category start end sub
calculate_spent-Perm category sub start end ts us p =
    ∥∥₁_elim p (Option_ℤ-set _ _) (spent-Permᴰ category sub start end)
