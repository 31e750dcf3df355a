-- ===== src/Optimistic/Rollback.antt =====
-- frontend/src/utils/optimistic.ts: what is left in the list, with other changes during the wait.
use sumurai.Prelude.{map, ◌≡◌, refl, true, false, List, [], ◌∷◌, ◌++◌, All, arith, ap}
use mathlib.Core.List.{append_assoc, append-nil}
use sumurai.Prelude.Text.{Text, eq, eq_iff}
use sumurai.Http.{Thrown, ok, throw}
use sumurai.Optimistic.{
  has_id, replace_item, without_item, finish_create, optimistic_create, finish_update,
  optimistic_update, optimistic_delete,
}

module _ {T : Type 0} (id : T → Text) where
  -- No item of the list has the id.
  abbrev pub Lacks : Text → List T → Type 0
  Lacks i xs = All (λ x. has_id id i x ≡ false) xs

  without-append :
      (i : Text) (xs ys : List T)
      → without_item id i (xs ++ ys) ≡ without_item id i xs ++ without_item id i ys
  unfolding without_item
  without-append i [] ys = refl
  without-append i (x ∷ xs) ys = ground (arith, without-append i xs ys)

  without-Lacks : (i : Text) (xs : List T) → Lacks i xs → without_item id i xs ≡ xs
  unfolding without_item
  without-Lacks i [] h = refl
  without-Lacks i (x ∷ xs) (h, hs) = ground (arith, without-Lacks i xs hs)

  replace-append :
      (i : Text) (f : T → T) (xs ys : List T)
      → replace_item id i f (xs ++ ys) ≡ replace_item id i f xs ++ replace_item id i f ys
  unfolding replace_item
  replace-append i f [] ys = refl
  replace-append i f (x ∷ xs) ys = rw (replace-append i f xs ys) refl

  replace-Lacks : (i : Text) (f : T → T) (xs : List T) → Lacks i xs → replace_item id i f xs ≡ xs
  unfolding replace_item
  replace-Lacks i f [] h = refl
  replace-Lacks i f (x ∷ xs) (h, hs) = rw (h, replace-Lacks i f xs hs) refl

  has_id_self : (x : T) → has_id id (id x) x ≡ true
  unfolding has_id
  has_id_self x = (eq_iff (id x) (id x)).1 refl

  without_self : (x : T) → without_item id (id x) (x ∷ []) ≡ []
  unfolding without_item
  without_self x = rw (has_id_self x) refl

  replace_self : (x : T) (f : T → T) → replace_item id (id x) f (x ∷ []) ≡ f x ∷ []
  unfolding replace_item
  replace_self x f = rw (has_id_self x) refl

  -- A failed creation takes back the temporary item alone: the items that were there before it and
  -- those that were added during the wait stay, when none has its id.
  pub optimistic_create_rollback :
      (temp_item : T) (e : Thrown) (prev added : List T)
      → Lacks (id temp_item) prev
      → Lacks (id temp_item) added
      → optimistic_create id temp_item (throw e) (λ l. l ++ added) prev ≡ (prev ++ added, throw e)
  unfolding optimistic_create finish_create
  optimistic_create_rollback temp_item e prev added h k =
      rw
        (
          without-append (id temp_item) (prev ++ temp_item ∷ []) added,
          without-append (id temp_item) prev (temp_item ∷ []),
          without_self temp_item,
          without-Lacks (id temp_item) prev h,
          without-Lacks (id temp_item) added k,
          append-nil prev,
        )
        refl

  -- A successful creation puts the item of the server in the place of the temporary one, between the
  -- items that were there and those that were added during the wait, when none has its id.
  pub optimistic_create_done :
      (temp_item created : T) (prev added : List T)
      → Lacks (id temp_item) prev
      → Lacks (id temp_item) added
      → optimistic_create id temp_item (ok created) (λ l. l ++ added) prev
        ≡ (prev ++ created ∷ added, ok tt)
  unfolding optimistic_create finish_create
  optimistic_create_done temp_item created prev added h k =
      rw
        (
          replace-append (id temp_item) (λ x. created) (prev ++ temp_item ∷ []) added,
          replace-append (id temp_item) (λ x. created) prev (temp_item ∷ []),
          replace_self temp_item (λ x. created),
          replace-Lacks (id temp_item) (λ x. created) prev h,
          replace-Lacks (id temp_item) (λ x. created) added k,
          append_assoc prev (created ∷ []) added,
        )
        refl

  without_comm :
      (i j : Text) (xs : List T)
      → without_item id i (without_item id j xs) ≡ without_item id j (without_item id i xs)
  unfolding without_item
  without_comm i j [] = refl
  without_comm i j (x ∷ xs) = ground (arith, without_comm i j xs)

  -- a deletion that succeeds at once
  abbrev pub deleted : Text → List T → List T
  deleted k l = (optimistic_delete id k (ok tt) (λ m. m) l).0

  abbrev pub ids_of : List T → List Text
  ids_of xs = map id xs

  replace_replace :
      (i : Text) (f : T → T) (updated : T) (xs : List T)
      → ((x : T) → id (f x) ≡ id x)
      → replace_item id i (λ x. updated) (replace_item id i f xs)
        ≡ replace_item id i (λ x. updated) xs
  unfolding replace_item has_id
  replace_replace i f updated [] k = refl
  replace_replace i f updated (x ∷ xs) k =
      ground (arith, ap (λ t. eq t i) (k x), replace_replace i f updated xs k)

  -- A successful update leaves the list as if the item of the server had replaced the old one at
  -- once: nothing of the local change stays, whatever it was, when it keeps the id.
  pub optimistic_update_done :
      (i : Text) (apply_local : T → T) (updated : T) (prev added : List T)
      → ((x : T) → id (apply_local x) ≡ id x)
      → optimistic_update id i apply_local (ok updated) (λ l. l ++ added) prev
        ≡ (replace_item id i (λ x. updated) (prev ++ added), ok tt)
  unfolding optimistic_update finish_update
  optimistic_update_done i apply_local updated prev added k =
      rw
        (
          replace-append i (λ x. updated) (replace_item id i apply_local prev) added,
          replace_replace i apply_local updated prev k,
          replace-append i (λ x. updated) prev added,
        )
        refl
