-- ===== src/BudgetList/SameRender.antt =====
-- frontend/src/features/budgets/hooks/useBudgets.ts: two calls of `add` that belong to one render.
use mathlib.Core.List.{append_assoc, append-nil}
use sumurai.Prelude.{◌≡◌, refl, sym, ap, ◌∙◌, false, List, [], ◌∷◌, ◌++◌}
use sumurai.Prelude.Text.{eq, contains}
use sumurai.Types.{Budget}
use sumurai.Http.{Thrown, Result, ok, throw}
use sumurai.Optimistic.{has_id, finish_create, optimistic_create}
use sumurai.Optimistic.Rollback.{Lacks, optimistic_create_rollback, optimistic_create_done}
use sumurai.BudgetList.{BudgetState, budget_id, exists_budget, start_add, add, finish_add}
use sumurai.BudgetList.Overlap.{category_key, category_keys, contains-category_keys}

Lacks-snoc :
    (b c : Budget) (bs : List Budget)
    → Lacks budget_id b.id bs
    → eq c.id b.id ≡ false
    → Lacks budget_id b.id (bs ++ c ∷ [])
unfolding has_id
Lacks-snoc b c [] h k = (k, tt)
Lacks-snoc b c (d ∷ bs) (h, hs) k = (h, Lacks-snoc b c bs hs k)

same_test :
    (a b : Budget) (bs : List Budget)
    → category_key a ≡ category_key b
    → exists_budget a.category bs ≡ false
    → exists_budget b.category bs ≡ false
same_test a b bs k h =
    sym (contains-category_keys bs b.category)
    ∙ ap (contains (category_keys bs)) (sym k)
    ∙ contains-category_keys bs a.category
    ∙ h

-- the call of the second add, while the first is answered by `created`
abbrev pub second_add :
    Budget → Budget → Budget → Result Budget → BudgetState → BudgetState × Result (Unit {0})
second_add a created b reply s =
    add s.budgets b reply (λ u. (finish_add a (ok created) u).0) (start_add a s)

first_answered :
    (s : BudgetState) (a created b : Budget)
    → Lacks budget_id a.id s.budgets
    → eq b.id a.id ≡ false
    → (finish_add a (ok created) (start_add b (start_add a s))).0.budgets
      ≡ ((s.budgets ++ created ∷ []) ++ b ∷ []) ++ []
unfolding start_add finish_add optimistic_create has_id
first_answered s a created b h k =
    ap (λ r. r.0) (optimistic_create_done budget_id a created s.budgets (b ∷ []) h (k, tt))
    ∙ sym (append_assoc s.budgets (created ∷ []) (b ∷ []))
    ∙ sym (append-nil ((s.budgets ++ created ∷ []) ++ b ∷ []))

-- Two adds of the same category, whatever its case, that belong to one render, of which the first is
-- answered while the second waits. Both pass the test of the list. When the server takes the second
-- too, the list ends with two budgets of the category; when it refuses the second, with the first
-- alone, and the second call throws the error.
pub add_twice :
    (s : BudgetState) (a created b created' : Budget) (e : Thrown)
    → exists_budget a.category s.budgets ≡ false
    → category_key a ≡ category_key b
    → Lacks budget_id a.id s.budgets
    → Lacks budget_id b.id s.budgets
    → eq b.id a.id ≡ false
    → eq created.id b.id ≡ false
    → ((second_add a created b (ok created') s).0.budgets
        ≡ (s.budgets ++ created ∷ []) ++ created' ∷ [])
      × ((second_add a created b (ok created') s).1 ≡ ok tt)
      × ((second_add a created b (throw e) s).0.budgets ≡ s.budgets ++ created ∷ [])
      × ((second_add a created b (throw e) s).1 ≡ throw e)
unfolding add finish_add optimistic_create
add_twice s a created b created' e h k l m n o =
    let free = same_test a b s.budgets k h in
    let shown = first_answered s a created b l n in
    let lacks = Lacks-snoc b created s.budgets m o in
    let prev = s.budgets ++ created ∷ [] in
    (
      rw free (
          ap (λ u. (finish_create budget_id b (ok created') u).0) shown
          ∙ ap (λ r. r.0) (optimistic_create_done budget_id b created' prev [] lacks tt)),
      rw free refl,
      rw free (
          ap (λ u. (finish_create budget_id b (throw e) u).0) shown
          ∙ ap (λ r. r.0) (optimistic_create_rollback budget_id b e prev [] lacks tt)
          ∙ append-nil prev),
      rw free refl,
    )
