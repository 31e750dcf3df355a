-- ===== src/BudgetList/Overlap.antt =====
-- frontend/src/features/budgets/hooks/useBudgets.ts: calls that overlap, as sequences of the steps
-- before and after their answers.
use sumurai.Prelude.{
  ◌≡◌, refl, sym, ap, ◌∙◌, subst, Bool, true, false, Option, List, [], ◌∷◌, ◌++◌, map, filter, All,
  In, All-In, if◌then◌else◌, arith,
}
use sumurai.Prelude.Int.{ℤ}
use sumurai.Prelude.Text.{Text, eq, to_lower_case, contains, eq_iff}
use sumurai.Prelude.Sets.{NoDup, Sub, NoDup-snoc, false_of_Sub}
use sumurai.Types.{Budget, BudgetFrequency}
use sumurai.Http.{Thrown, ok, throw}
use sumurai.Optimistic.{has_id, replace_item, without_item, finish_create}
use sumurai.BudgetList.{
  BudgetState, budget_id, exists_budget, start_add, finish_add, changed_budget, start_update,
  finish_update, start_remove, finish_remove, load_budgets,
}

-- the categories as `add` compares them
abbrev pub category_key : Budget → Text
category_key b = to_lower_case b.category

abbrev pub category_keys : List Budget → List Text
category_keys bs = map category_key bs

-- The state of the hook, the list of the last render, which the callbacks see, and the lists that
-- calls have kept to go back to.
pub record Run : Type 0 where
  pub now : BudgetState
  pub rendered : List Budget
  pub snapshots : List (List Budget)

abbrev pub run : BudgetState → List Budget → List (List Budget) → Run
run s shown ss = record { now = s; rendered = shown; snapshots = ss }

pub contains-category_keys :
    (bs : List Budget) (c : Text)
    → contains (category_keys bs) (to_lower_case c) ≡ exists_budget c bs
unfolding exists_budget
contains-category_keys [] c = refl
contains-category_keys (b ∷ bs) c = ground (arith, contains-category_keys bs c)

category_keys-snoc :
    (bs : List Budget) (b : Budget)
    → category_keys (bs ++ b ∷ []) ≡ category_keys bs ++ category_key b ∷ []
category_keys-snoc [] b = refl
category_keys-snoc (c ∷ bs) b = ap (λ l. category_key c ∷ l) (category_keys-snoc bs b)

category_keys-filter :
    (p : Budget → Bool) (bs : List Budget) → Sub (category_keys (filter p bs)) (category_keys bs)
category_keys-filter p [] z h = h
category_keys-filter p (b ∷ bs) z h = ground (arith, category_keys-filter p bs z)

-- `named` is the category of each id, in lower case: what the server keeps for an id, and what a
-- temporary id was made for.
module _ (named : Text → Text) where
  abbrev pub IsNamed : Budget → Type 0
  IsNamed b = category_key b ≡ named b.id

  -- No two budgets have the same category, whatever its case.
  pub record IsDistinct (bs : List Budget) : Type 0 where
    pub all_named : All IsNamed bs
    pub distinct : NoDup (category_keys bs)

  -- What a call does at its start and once it is answered, in any order between the calls and the
  -- renders. A budget in an answer has the category that goes with its id, the list of a load has no
  -- category twice, and when an add starts no category has come into the list since its render.
  pub data Step : Run → Run → Type 0 where
    rendered_again :
        (s : BudgetState) (shown : List Budget) (ss : List (List Budget))
        → Step (run s shown ss) (run s s.budgets ss)
    add_started :
        (temp : Budget) (s : BudgetState) (shown : List Budget) (ss : List (List Budget))
        → exists_budget temp.category shown ≡ false
        → Sub (category_keys s.budgets) (category_keys shown)
        → IsNamed temp
        → Step (run s shown ss) (run (start_add temp s) shown ss)
    add_done :
        (temp created : Budget) (s : BudgetState) (shown : List Budget) (ss : List (List Budget))
        → named created.id ≡ named temp.id
        → IsNamed created
        → Step (run s shown ss) (run (finish_add temp (ok created) s).0 shown ss)
    add_failed :
        (temp : Budget) (e : Thrown) (s : BudgetState) (shown : List Budget)
        (ss : List (List Budget))
        → Step (run s shown ss) (run (finish_add temp (throw e) s).0 shown ss)
    update_started :
        (i : Text) (amount : ℤ) (frequency : Option BudgetFrequency) (rollover : Option Bool)
        (s : BudgetState) (shown : List Budget) (ss : List (List Budget))
        → Step
            (run s shown ss)
            (run (start_update i amount frequency rollover s) shown (shown ∷ ss))
    update_done :
        (i : Text) (snapshot : List Budget) (updated : Budget) (s : BudgetState)
        (shown : List Budget) (ss : List (List Budget))
        → named updated.id ≡ named i
        → IsNamed updated
        → Step (run s shown ss) (run (finish_update i snapshot (ok updated) s) shown ss)
    update_failed :
        (i : Text) (snapshot : List Budget) (e : Thrown) (s : BudgetState) (shown : List Budget)
        (ss : List (List Budget))
        → In snapshot ss
        → Step (run s shown ss) (run (finish_update i snapshot (throw e) s) shown ss)
    remove_started :
        (i : Text) (s : BudgetState) (shown : List Budget) (ss : List (List Budget))
        → Step (run s shown ss) (run (start_remove i s) shown (shown ∷ ss))
    remove_failed :
        (snapshot : List Budget) (e : Thrown) (s : BudgetState) (shown : List Budget)
        (ss : List (List Budget))
        → In snapshot ss
        → Step (run s shown ss) (run (finish_remove snapshot (throw e) s) shown ss)
    list_loaded :
        (list : List Budget) (s : BudgetState) (shown : List Budget) (ss : List (List Budget))
        → IsDistinct list
        → Step (run s shown ss) (run (load_budgets (ok list) s) shown ss)
    list_failed :
        (e : Thrown) (s : BudgetState) (shown : List Budget) (ss : List (List Budget))
        → Step (run s shown ss) (run (load_budgets (throw e) s) shown ss)

  pub data Reach (start : BudgetState) : Run → Type 0 where
    begin : Reach start (run start start.budgets [])
    next : {r r' : Run} → Reach start r → Step r r' → Reach start r'

  pub record IsSafe (r : Run) : Type 0 where
    pub now_distinct : IsDistinct r.now.budgets
    pub shown_distinct : IsDistinct r.rendered
    pub kept_distinct : All IsDistinct r.snapshots

  empty-IsDistinct : IsDistinct []
  empty-IsDistinct = record { all_named = tt; distinct = tt }

  All-snoc :
      (bs : List Budget) (b : Budget) → All IsNamed bs → IsNamed b → All IsNamed (bs ++ b ∷ [])
  All-snoc [] b h k = (k, tt)
  All-snoc (c ∷ bs) b (h, hs) k = (h, All-snoc bs b hs k)

  not_there :
      (c : Text) (now shown : List Budget)
      → Sub (category_keys now) (category_keys shown)
      → exists_budget c shown ≡ false
      → exists_budget c now ≡ false
  not_there c now shown m h =
      sym (contains-category_keys now c)
      ∙ false_of_Sub (category_keys now) (category_keys shown) (to_lower_case c) m
          (contains-category_keys shown c ∙ h)

  snoc-IsDistinct :
      (bs : List Budget) (b : Budget)
      → IsDistinct bs
      → exists_budget b.category bs ≡ false
      → IsNamed b
      → IsDistinct (bs ++ b ∷ [])
  snoc-IsDistinct bs b d h k = record {
    all_named = All-snoc bs b d.all_named k;
    distinct = subst NoDup (sym (category_keys-snoc bs b)) (
        NoDup-snoc (category_keys bs) (category_key b) d.distinct
          (contains-category_keys bs b.category ∙ h));
  }

  filter-All : (p : Budget → Bool) (bs : List Budget) → All IsNamed bs → All IsNamed (filter p bs)
  filter-All p [] h = tt
  filter-All p (b ∷ bs) (h, hs) =
      elim (p b) as (λ c. All IsNamed (if c then b ∷ filter p bs else filter p bs)) [
        | true ↦ (h, filter-All p bs hs)
        | false ↦ filter-All p bs hs
      ]

  filter-NoDup :
      (p : Budget → Bool) (bs : List Budget)
      → NoDup (category_keys bs)
      → NoDup (category_keys (filter p bs))
  filter-NoDup p [] h = tt
  filter-NoDup p (b ∷ bs) (h, hs) =
      elim (p b) as (λ c. NoDup (category_keys (if c then b ∷ filter p bs else filter p bs))) [
        | true ↦
            (false_of_Sub _ _ (category_key b) (category_keys-filter p bs) h, filter-NoDup p bs hs)
        | false ↦ filter-NoDup p bs hs
      ]

  without-IsDistinct :
      (i : Text) (bs : List Budget) → IsDistinct bs → IsDistinct (without_item budget_id i bs)
  unfolding without_item has_id
  without-IsDistinct i bs d = record {
    all_named = filter-All _ bs d.all_named;
    distinct = filter-NoDup _ bs d.distinct;
  }

  -- what a replacement has to keep
  abbrev Keeps : Text → (Budget → Budget) → Type 0
  Keeps i f =
      (b : Budget)
      → eq b.id i ≡ true
      → IsNamed b
      → (category_key (f b) ≡ category_key b) × IsNamed (f b)

  replaced :
      (i : Text) (f : Budget → Budget) (bs : List Budget)
      → Keeps i f
      → All IsNamed bs
      → All IsNamed (replace_item budget_id i f bs)
        × (category_keys (replace_item budget_id i f bs) ≡ category_keys bs)
  unfolding replace_item has_id
  replaced i f [] k h = (tt, refl)
  replaced i f (b ∷ bs) k (h, hs) =
      let (hs', es) = replaced i f bs k hs in
      elim (eq b.id i)
          as (λ c.
            eq b.id i ≡ c
            → All IsNamed ((if c then f b else b) ∷ replace_item budget_id i f bs)
              × (category_keys ((if c then f b else b) ∷ replace_item budget_id i f bs)
                  ≡ category_keys (b ∷ bs))) [
                    | true ↦ λ p.
                        let (e, n) = k b p h in
                        (
                          (n, hs'),
                          ap (λ x. x ∷ category_keys (replace_item budget_id i f bs)) e
                              ∙ ap (λ l. category_key b ∷ l) es,
                        )
                    | false ↦ λ p. ((h, hs'), ap (λ l. category_key b ∷ l) es)
                  ]
        refl

  replace-IsDistinct :
      (i : Text) (f : Budget → Budget) (bs : List Budget)
      → Keeps i f
      → IsDistinct bs
      → IsDistinct (replace_item budget_id i f bs)
  replace-IsDistinct i f bs k d =
      let (h, e) = replaced i f bs k d.all_named in
      record { all_named = h; distinct = subst NoDup (sym e) d.distinct }

  constant-Keeps : (i : Text) (c : Budget) → named c.id ≡ named i → IsNamed c → Keeps i (λ b. c)
  constant-Keeps i c e n b p m = (n ∙ e ∙ sym (m ∙ ap named ((eq_iff b.id i).0 p)), n)

  changed-Keeps :
      (i : Text) (amount : ℤ) (frequency : Option BudgetFrequency) (rollover : Option Bool)
      → Keeps i (changed_budget amount frequency rollover)
  unfolding changed_budget
  changed-Keeps i amount frequency rollover b p m = (refl, m)

  Step-IsSafe : {r r' : Run} → Step r r' → IsSafe r → IsSafe r'
  unfolding start_add finish_add start_update finish_update start_remove finish_remove load_budgets
      finish_create
  Step-IsSafe (rendered_again s shown ss) v = record {
    now_distinct = v.now_distinct;
    shown_distinct = v.now_distinct;
    kept_distinct = v.kept_distinct;
  }
  Step-IsSafe (add_started temp s shown ss h m n) v = record {
    now_distinct =
        snoc-IsDistinct s.budgets temp v.now_distinct (not_there temp.category s.budgets shown m h)
          n;
    shown_distinct = v.shown_distinct;
    kept_distinct = v.kept_distinct;
  }
  Step-IsSafe (add_done temp created s shown ss e n) v = record {
    now_distinct =
        replace-IsDistinct temp.id (λ b. created) s.budgets (constant-Keeps temp.id created e n)
          v.now_distinct;
    shown_distinct = v.shown_distinct;
    kept_distinct = v.kept_distinct;
  }
  Step-IsSafe (add_failed temp e s shown ss) v = record {
    now_distinct = without-IsDistinct temp.id s.budgets v.now_distinct;
    shown_distinct = v.shown_distinct;
    kept_distinct = v.kept_distinct;
  }
  Step-IsSafe (update_started i amount frequency rollover s shown ss) v = record {
    now_distinct =
        replace-IsDistinct i (changed_budget amount frequency rollover) s.budgets
          (changed-Keeps i amount frequency rollover) v.now_distinct;
    shown_distinct = v.shown_distinct;
    kept_distinct = (v.shown_distinct, v.kept_distinct);
  }
  Step-IsSafe (update_done i snapshot updated s shown ss e n) v = record {
    now_distinct =
        replace-IsDistinct i (λ b. updated) s.budgets (constant-Keeps i updated e n) v.now_distinct;
    shown_distinct = v.shown_distinct;
    kept_distinct = v.kept_distinct;
  }
  Step-IsSafe (update_failed i snapshot e s shown ss m) v = record {
    now_distinct = All-In IsDistinct snapshot ss v.kept_distinct m;
    shown_distinct = v.shown_distinct;
    kept_distinct = v.kept_distinct;
  }
  Step-IsSafe (remove_started i s shown ss) v = record {
    now_distinct = without-IsDistinct i s.budgets v.now_distinct;
    shown_distinct = v.shown_distinct;
    kept_distinct = (v.shown_distinct, v.kept_distinct);
  }
  Step-IsSafe (remove_failed snapshot e s shown ss m) v = record {
    now_distinct = All-In IsDistinct snapshot ss v.kept_distinct m;
    shown_distinct = v.shown_distinct;
    kept_distinct = v.kept_distinct;
  }
  Step-IsSafe (list_loaded list s shown ss d) v = record {
    now_distinct = d;
    shown_distinct = v.shown_distinct;
    kept_distinct = v.kept_distinct;
  }
  Step-IsSafe (list_failed e s shown ss) v = record {
    now_distinct = empty-IsDistinct;
    shown_distinct = v.shown_distinct;
    kept_distinct = v.kept_distinct;
  }

  Reach-IsSafe :
      {start : BudgetState} {r : Run} → IsDistinct start.budgets → Reach start r → IsSafe r
  Reach-IsSafe d begin = record { now_distinct = d; shown_distinct = d; kept_distinct = tt }
  Reach-IsSafe d (next p q) = Step-IsSafe q (Reach-IsSafe d p)

  -- However the calls of `add`, `update`, `remove` and `load` overlap, and whichever of them fail, no
  -- two budgets of the list have the same category. This holds when the server keeps the category of an
  -- id and lists none twice, and when no category has come into the list between the render that an
  -- add belongs to and its start: the add tests the list of its render.
  pub Reach-IsDistinct :
      {start : BudgetState} {r : Run}
      → IsDistinct start.budgets
      → Reach start r
      → IsDistinct r.now.budgets
  Reach-IsDistinct d p = (Reach-IsSafe d p).now_distinct
