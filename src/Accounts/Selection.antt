-- ===== src/Accounts/Selection.antt =====
-- frontend/src/hooks/useAccountFilter.tsx: the selected accounts through every change.
use sumurai.Prelude.{
  ◌||◌, ◌≡◌, ◌↔◌, refl, Bool, true, false, not, ◌&&◌, List, [], ◌∷◌, ◌++◌, filter, all, length,
  if◌then◌else◌, arith, ◌<◌,
}
use sumurai.Prelude.Text.{Text, eq, contains}
use sumurai.Prelude.Sets.{
  here, there, eq-ap, Sub-trans, NoDup, Sub, contains-append, contains-filter, NoDup-filter,
  NoDup-snoc, length-Sub, Sub-of_length,
}
use sumurai.Accounts.{
  ProviderAccount, accounts_of, group_accounts_by_bank, ids, FilterState, initial,
  is_all_accounts_selected, push_new, had_all_selected, next_selection, start_fetch, finish_fetch,
  fail_fetch, toggle_bank, toggle_account, select_all,
}
use sumurai.Accounts.Grouping.{accounts_of-group_accounts_by_bank}

if-NoDup : (b : Bool) (xs ys : List Text) → NoDup xs → NoDup ys → NoDup (if b then xs else ys)
if-NoDup true xs ys h k = h
if-NoDup false xs ys h k = k

if-Sub : (b : Bool) (xs ys zs : List Text) → Sub xs zs → Sub ys zs → Sub (if b then xs else ys) zs
if-Sub true xs ys zs h k = h
if-Sub false xs ys zs h k = k

pushed-NoDup :
    (i : Text) (l : List Text) → NoDup l → NoDup (if contains l i then l else l ++ i ∷ [])
pushed-NoDup i l h =
    elim (contains l i) as (λ b. contains l i ≡ b → NoDup (if b then l else l ++ i ∷ [])) [
      | true ↦ λ p. h
      | false ↦ λ p. NoDup-snoc l i h p
    ]
      refl

snoc-Sub :
    (i : Text) (l all_ids : List Text)
    → Sub l all_ids
    → contains all_ids i ≡ true
    → Sub (l ++ i ∷ []) all_ids
snoc-Sub i l all_ids h k z p =
    ground (arith, contains-append l (i ∷ []) z, h z, eq-ap (contains all_ids) i z)

push_new-NoDup : (l is : List Text) → NoDup l → NoDup (push_new l is)
unfolding push_new
push_new-NoDup l [] h = h
push_new-NoDup l (i ∷ is) h =
    push_new-NoDup (if contains l i then l else l ++ i ∷ []) is (pushed-NoDup i l h)

push_new-Sub :
    (l is all_ids : List Text) → Sub l all_ids → Sub is all_ids → Sub (push_new l is) all_ids
unfolding push_new
push_new-Sub l [] all_ids h k = h
push_new-Sub l (i ∷ is) all_ids h k =
    push_new-Sub (if contains l i then l else l ++ i ∷ []) is all_ids
      (if-Sub (contains l i) l _ all_ids h (snoc-Sub i l all_ids h (k i (here i is))))
      (λ z p. k z (there i z is p))

contains_of_filter :
    (p : Text → Bool) (xs : List Text) (z : Text) → contains (filter p xs) z ≡ true → p z ≡ true
contains_of_filter p [] z h = cc
contains_of_filter p (x ∷ xs) z h = ground (arith, contains_of_filter p xs z, eq-ap p x z)

next_selection-Sub : (previous new prev : List Text) → Sub (next_selection previous new prev) new
unfolding next_selection
next_selection-Sub previous new [] = λ z h. h
next_selection-Sub previous new (i ∷ is) =
    if-Sub _ new _ new (λ z h. h)
      (push_new-Sub _ _ new (contains_of_filter (contains new) (i ∷ is)) (contains-filter _ new))

next_selection-NoDup :
    (previous new prev : List Text)
    → NoDup new
    → NoDup prev
    → NoDup (next_selection previous new prev)
unfolding next_selection
next_selection-NoDup previous new [] h k = h
next_selection-NoDup previous new (i ∷ is) h k =
    if-NoDup _ new _ h (push_new-NoDup _ _ (NoDup-filter (contains new) (i ∷ is) k))

ids-filter :
    (p : ProviderAccount → Bool) (accounts : List ProviderAccount)
    → Sub (ids (filter p accounts)) (ids accounts)
unfolding ids
ids-filter p [] z h = h
ids-filter p (a ∷ accounts) z h = ground (arith, ids-filter p accounts z)

-- No account is selected twice, all that are selected are accounts, and the ids of the last fetch are
-- the ones of the accounts.
pub record IsConsistent (s : FilterState) : Type 0 where
  pub accounts_once : NoDup (ids s.accounts)
  pub selected_once : NoDup s.selected
  pub selected_known : Sub s.selected (ids s.accounts)
  pub previous_known : s.previous ≡ ids s.accounts

-- The changes of the filter. A response lists no account twice, an account that is toggled is one of
-- the list that is shown, and the selection is set from outside only to all accounts.
pub data Step : FilterState → FilterState → Type 0 where
  started : (s : FilterState) → Step s (start_fetch s)
  fetched :
      (accounts : List ProviderAccount) (s : FilterState)
      → NoDup (ids accounts)
      → Step s (finish_fetch accounts s)
  failed : (s : FilterState) → Step s (fail_fetch s)
  all_selected : (s : FilterState) → Step s (select_all s)
  bank_toggled : (bank : Text) (s : FilterState) → Step s (toggle_bank bank s)
  account_toggled :
      (i : Text) (s : FilterState)
      → contains (ids s.accounts) i ≡ true
      → Step s (toggle_account i s)

pub data Reach : FilterState → Type 0 where
  start : Reach initial
  next : {s t : FilterState} → Reach s → Step s t → Reach t

bank_ids-Sub :
    (bank : Text) (accounts : List ProviderAccount)
    → Sub (ids (accounts_of bank (group_accounts_by_bank accounts))) (ids accounts)
bank_ids-Sub bank accounts =
    rw (accounts_of-group_accounts_by_bank bank accounts) (ids-filter _ accounts)

toggled-NoDup :
    (i : Text) (l : List Text)
    → NoDup l
    → NoDup (if contains l i then filter (λ j. not (eq j i)) l else l ++ i ∷ [])
toggled-NoDup i l h =
    elim (contains l i)
        as (λ b.
          contains l i ≡ b → NoDup (if b then filter (λ j. not (eq j i)) l else l ++ i ∷ [])) [
            | true ↦ λ p. NoDup-filter _ l h
            | false ↦ λ p. NoDup-snoc l i h p
          ]
      refl

Step-IsConsistent : {s t : FilterState} → Step s t → IsConsistent s → IsConsistent t
unfolding start_fetch finish_fetch fail_fetch select_all toggle_bank toggle_account ids
Step-IsConsistent (started s) c = record {
  accounts_once = c.accounts_once;
  selected_once = c.selected_once;
  selected_known = c.selected_known;
  previous_known = c.previous_known;
}
Step-IsConsistent (fetched accounts s h) c = record {
  accounts_once = h;
  selected_once = next_selection-NoDup s.previous _ s.selected h c.selected_once;
  selected_known = next_selection-Sub s.previous _ s.selected;
  previous_known = refl;
}
Step-IsConsistent (failed s) c = record {
  accounts_once = tt;
  selected_once = tt;
  selected_known = λ z h. h;
  previous_known = refl;
}
Step-IsConsistent (all_selected s) c = record {
  accounts_once = c.accounts_once;
  selected_once = c.accounts_once;
  selected_known = λ z h. h;
  previous_known = c.previous_known;
}
Step-IsConsistent (bank_toggled bank s) c =
    let bank_ids = ids (accounts_of bank (group_accounts_by_bank s.accounts)) in
    record {
      accounts_once = c.accounts_once;
      selected_once =
          if-NoDup (all (contains s.selected) bank_ids) _ _
            (NoDup-filter _ s.selected c.selected_once)
            (push_new-NoDup s.selected bank_ids c.selected_once);
      selected_known =
          if-Sub (all (contains s.selected) bank_ids) _ _ _
            (Sub-trans _ s.selected _ (contains-filter _ s.selected) c.selected_known)
            (push_new-Sub s.selected bank_ids _ c.selected_known (bank_ids-Sub bank s.accounts));
      previous_known = c.previous_known;
    }
Step-IsConsistent (account_toggled i s k) c = record {
  accounts_once = c.accounts_once;
  selected_once = toggled-NoDup i s.selected c.selected_once;
  selected_known =
      if-Sub (contains s.selected i) _ _ _
        (Sub-trans _ s.selected _ (contains-filter _ s.selected) c.selected_known)
        (snoc-Sub i s.selected _ c.selected_known k);
  previous_known = c.previous_known;
}

-- However the accounts are fetched, toggled and all selected, no account is selected twice, every
-- selected one is an account of the list, and the ids of the last fetch are the ones of the accounts.
-- This is for responses that list no account twice and toggles of accounts of the list.
pub Reach-IsConsistent : (s : FilterState) → Reach s → IsConsistent s
unfolding ids
Reach-IsConsistent s start = record {
  accounts_once = tt;
  selected_once = tt;
  selected_known = λ z h. h;
  previous_known = refl;
}
Reach-IsConsistent s (next r st) = Step-IsConsistent st (Reach-IsConsistent _ r)

-- Wherever the filter gets, it counts all accounts as selected exactly when there are accounts and
-- each of them is selected.
pub is_all_accounts_selected_iff :
    (s : FilterState)
    → Reach s
    → (is_all_accounts_selected s ≡ true)
      ↔ ((0 < length (ids s.accounts)) × Sub (ids s.accounts) s.selected)
unfolding is_all_accounts_selected
is_all_accounts_selected_iff s r =
    let c = Reach-IsConsistent s r in
    let le = length-Sub s.selected (ids s.accounts) c.selected_once c.selected_known in
    (
      λ h. (
        ground arith,
        Sub-of_length s.selected (ids s.accounts) c.selected_once c.selected_known (ground arith),
      ),
      λ h. let ge = length-Sub (ids s.accounts) s.selected c.accounts_once h.1 in ground arith,
    )

contains-filter_eq :
    (p : Text → Bool) (xs : List Text) (z : Text)
    → contains (filter p xs) z ≡ (contains xs z && p z)
contains-filter_eq p [] z = refl
contains-filter_eq p (x ∷ xs) z = ground (arith, contains-filter_eq p xs z, eq-ap p x z)

contains-pushed :
    (l : List Text) (i z : Text)
    → contains (if contains l i then l else l ++ i ∷ []) z ≡ (contains l z || eq i z)
contains-pushed l i z = ground (arith, contains-append l (i ∷ []) z, eq-ap (contains l) i z)

contains-push_new :
    (l is : List Text) (z : Text) → contains (push_new l is) z ≡ (contains l z || contains is z)
unfolding push_new
contains-push_new l [] z = ground arith
contains-push_new l (i ∷ is) z =
    ground (
      arith,
      contains-push_new (if contains l i then l else l ++ i ∷ []) is z,
      contains-pushed l i z,
    )

-- When some accounts were selected, but not all, an account is selected after a fetch exactly when it
-- is in the answer and was selected before or is new.
pub next_selection_iff :
    (previous new prev : List Text) (z : Text)
    → 0 < length prev
    → had_all_selected previous prev ≡ false
    → contains (next_selection previous new prev) z
      ≡ (contains new z && (contains prev z || not (contains previous z)))
unfolding next_selection
next_selection_iff previous new [] z h k = absurd (omega arith)
next_selection_iff previous new (i ∷ is) z h k =
    rw
      (
        k,
        contains-push_new (filter (contains new) (i ∷ is))
            (filter (λ j. not (contains previous j)) new) z,
        contains-filter_eq (contains new) (i ∷ is) z,
        contains-filter_eq (λ j. not (contains previous j)) new z,
      )
      (ground arith)
