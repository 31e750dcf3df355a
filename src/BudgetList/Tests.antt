-- ===== src/BudgetList/Tests.antt =====
-- Runs of the list of budgets.
use sumurai.Prelude.{◌≡◌, refl, true, false, none, some, [], ◌∷◌, arith}
use sumurai.Prelude.Int.{pos}
use sumurai.Prelude.Text.{Text, lit, eq, to_lower_case}
use sumurai.Types.{Budget}
use sumurai.Http.{Thrown, ok, throw, api_error, conflict_error}
use sumurai.Optimistic.{has_id}
use sumurai.Samples.{groceries, january}
use sumurai.Dates.{date, iso, IsValid}
use sumurai.Dates.Evaluation.{dates}
use sumurai.Dates.Calendar.{next_day}
use sumurai.Budgets.{in_range}
use sumurai.BudgetList.{
  BudgetState, new_budget, start_add, finish_add, start_update, exists_budget, add, reject_add,
}
use sumurai.BudgetList.Overlap.{
  IsNamed, IsDistinct, rendered_again, add_started, add_done, update_started, Reach, begin, next,
  run, Reach-IsDistinct, category_key,
}
use sumurai.BudgetList.SameRender.{second_add, add_twice}
use sumurai.BudgetList.Months.{Month, get_month_range}
use sumurai.BudgetList.Months.Range.{in_month, get_month_range_lem}

abbrev one_budget : BudgetState
one_budget = record {
  is_loading = false;
  transactions_loading = false;
  error = none;
  validation_error = none;
  budgets = groceries ∷ [];
  transactions = [];
  budgets_ready = true;
  loaded = true;
  last_range = none;
}

add_run :
    add one_budget.budgets
      (new_budget (lit "temp") (lit "GROCERIES") (pos 100) none none)
      (throw (api_error (conflict_error (lit "taken"))))
      (λ s. s)
      one_budget
    ≡ reject_add (lit "GROCERIES") one_budget
unfolding add exists_budget new_budget eq to_lower_case
add_run = refl

-- the pets budget of the user, as it is shown at once and as the server answers
abbrev temp : Budget
temp = record groceries { id = lit "temp"; category = lit "Pets" }

abbrev created : Budget
created = record groceries { id = lit "b2"; category = lit "Pets" }

abbrev named : Text → Text
named i = elim (eq i (lit "b1")) [ true ↦ lit "groceries" | false ↦ lit "pets" ]

one_budget-IsDistinct : IsDistinct named one_budget.budgets
unfolding eq to_lower_case
one_budget-IsDistinct = record { all_named = (refl, tt); distinct = (refl, tt) }

new_is_free : exists_budget (lit "Pets") one_budget.budgets ≡ false
unfolding exists_budget eq to_lower_case
new_is_free = refl

temp-named : IsNamed named temp
unfolding eq to_lower_case
temp-named = refl

created-named : IsNamed named created
unfolding eq to_lower_case
created-named = refl

same_name : named (lit "b2") ≡ named (lit "temp")
unfolding eq
same_name = refl

-- a creation, answered while an update is on its way
abbrev adding : BudgetState
adding = start_add temp one_budget

abbrev updating : BudgetState
updating = start_update (lit "b1") (pos 6000) none none adding

abbrev added : BudgetState
added = (finish_add temp (ok created) updating).0

overlap-Reach : Reach named one_budget (run added adding.budgets (adding.budgets ∷ []))
overlap-Reach =
    next
      (next
        (next
          (next begin
            (add_started temp one_budget one_budget.budgets [] new_is_free (λ z h. h) temp-named))
          (rendered_again adding one_budget.budgets []))
        (update_started (lit "b1") (pos 6000) none none adding adding.budgets []))
      (add_done temp created updating adding.budgets (adding.budgets ∷ []) same_name created-named)

Reach-IsDistinct_example : IsDistinct named added.budgets
Reach-IsDistinct_example = Reach-IsDistinct named one_budget-IsDistinct overlap-Reach

-- the same category in capitals
abbrev again : Budget
again = record groceries { id = lit "temp2"; category = lit "PETS" }

same_key : category_key temp ≡ category_key again
unfolding to_lower_case
same_key = refl

abbrev again_created : Budget
again_created = record again { id = lit "b3" }

abbrev refused : Thrown
refused = api_error (conflict_error (lit "taken"))

add_twice_example :
    ((second_add temp created again (ok again_created) one_budget).0.budgets
      ≡ groceries ∷ created ∷ again_created ∷ [])
    × ((second_add temp created again (ok again_created) one_budget).1 ≡ ok tt)
    × ((second_add temp created again (throw refused) one_budget).0.budgets
        ≡ groceries ∷ created ∷ [])
    × ((second_add temp created again (throw refused) one_budget).1 ≡ throw refused)
unfolding eq has_id
add_twice_example =
    add_twice one_budget temp created again again_created refused new_is_free same_key (refl, tt)
      (refl, tt) refl refl

abbrev january_2024 : Month
january_2024 = record { year = 2024; month = 0 }

january-IsValid : IsValid (date 2024 1 31)
unfolding dates
january-IsValid = omega arith

january_text : january.date ≡ iso (date 2024 1 31)
unfolding dates
january_text = refl

get_month_range_lem_example :
    (in_range
        (get_month_range false false january_2024).start
        (get_month_range false false january_2024).end
        january
      ≡ some (in_month january_2024 (date 2024 1 31)))
    × (in_range
          (get_month_range true true january_2024).start
          (get_month_range true true january_2024).end
          january
        ≡ some (in_month january_2024 (next_day (date 2024 1 31))))
get_month_range_lem_example =
    get_month_range_lem january_2024 january (date 2024 1 31) january-IsValid january_text
      (omega arith) (omega arith)
