-- ===== src/Prelude/Sorting.antt =====
-- `Array.prototype.sort`, which is stable: before x y says that x may stand before y.
use mathlib.Core.List.{Perm}
use mathlib.Core.List.Perm
use mathlib.Core.Path.{◌≡◌, refl}
use mathlib.Core.Bool.{Bool, true, false}
use mathlib.Core.List.{List, [], ◌∷◌}
use Prim.Native.Nat.{ℕ, zero, suc}
use native.Mathlib.Omega.{arith}
use sumurai.Prelude.Tests.{if◌then◌else◌}
use sumurai.Prelude.Lists.{All, take}

module _ {A : Type 0} (before : A → A → Bool) where
  unfoldable pub insert_by : A → List A → List A
  insert_by x [] = x ∷ []
  insert_by x (y ∷ ys) = if before x y then x ∷ y ∷ ys else y ∷ insert_by x ys

  unfoldable pub sort_by : List A → List A
  sort_by [] = []
  sort_by (x ∷ xs) = insert_by x (sort_by xs)

  if-Perm : (b : Bool) {x y z : List A} → Perm x z → Perm y z → Perm (if b then x else y) z
  if-Perm true p q = p
  if-Perm false p q = q

  insert_by-Perm : (x : A) (ys : List A) → Perm (insert_by x ys) (x ∷ ys)
  unfolding insert_by
  insert_by-Perm x [] = Perm.refl (x ∷ [])
  insert_by-Perm x (y ∷ ys) =
      if-Perm (before x y) (Perm.refl (x ∷ y ∷ ys))
        (Perm.trans (Perm.cons y (insert_by-Perm x ys)) (Perm.swap x y ys))

  pub sort_by-Perm : (xs : List A) → Perm (sort_by xs) xs
  unfolding sort_by
  sort_by-Perm [] = Perm.refl []
  sort_by-Perm (x ∷ xs) = Perm.trans (insert_by-Perm x (sort_by xs)) (Perm.cons x (sort_by-Perm xs))

  -- The first of the list, if any, may stand after x.
  abbrev pub Leads : A → List A → Type 0
  Leads x [] = Unit {0}
  Leads x (y ∷ ys) = before x y ≡ true

  -- Each item may stand before the next one.
  abbrev pub IsSorted : List A → Type 0
  IsSorted [] = Unit {0}
  IsSorted (x ∷ xs) = Leads x xs × IsSorted xs

  Leads-insert_by :
      (y x : A) (ys : List A) → before y x ≡ true → Leads y ys → Leads y (insert_by x ys)
  unfolding insert_by
  Leads-insert_by y x [] h k = h
  Leads-insert_by y x (z ∷ zs) h k = ground arith

  insert_by-IsSorted :
      ((x y : A) → before x y ≡ false → before y x ≡ true)
      → (x : A) (ys : List A) → IsSorted ys
      → IsSorted (insert_by x ys)
  unfolding insert_by
  insert_by-IsSorted total x [] h = (tt, tt)
  insert_by-IsSorted total x (y ∷ ys) (k, h) =
      elim (before x y)
          as (λ b. before x y ≡ b → IsSorted (if b then x ∷ y ∷ ys else y ∷ insert_by x ys)) [
            | true ↦ λ p. (p, (k, h))
            | false ↦ λ p. (Leads-insert_by y x ys (total x y p) k, insert_by-IsSorted total x ys h)
          ]
        refl

  pub sort_by-IsSorted :
      ((x y : A) → before x y ≡ false → before y x ≡ true) → (xs : List A) → IsSorted (sort_by xs)
  unfolding sort_by
  sort_by-IsSorted total [] = tt
  sort_by-IsSorted total (x ∷ xs) =
      insert_by-IsSorted total x (sort_by xs) (sort_by-IsSorted total xs)

  Leads-take : (n : ℕ) (x : A) (xs : List A) → Leads x xs → Leads x (take n xs)
  Leads-take zero x xs h = tt
  Leads-take (suc n) x [] h = tt
  Leads-take (suc n) x (y ∷ ys) h = h

  pub take-IsSorted : (n : ℕ) (xs : List A) → IsSorted xs → IsSorted (take n xs)
  take-IsSorted zero xs h = tt
  take-IsSorted (suc n) [] h = tt
  take-IsSorted (suc n) (x ∷ xs) (k, h) = (Leads-take n x xs k, take-IsSorted n xs h)

  if-All :
      (P : A → Type 0) (b : Bool) (x y : List A) → All P x → All P y → All P (if b then x else y)
  if-All P true x y p q = p
  if-All P false x y p q = q

  insert_by-All : (P : A → Type 0) (x : A) (ys : List A) → P x → All P ys → All P (insert_by x ys)
  unfolding insert_by
  insert_by-All P x [] p h = (p, tt)
  insert_by-All P x (y ∷ ys) p (q, h) =
      if-All P (before x y) _ _ (p, (q, h)) (q, insert_by-All P x ys p h)

  pub sort_by-All : (P : A → Type 0) (xs : List A) → All P xs → All P (sort_by xs)
  unfolding sort_by
  sort_by-All P [] h = tt
  sort_by-All P (x ∷ xs) (p, h) = insert_by-All P x (sort_by xs) p (sort_by-All P xs h)

pub take-All {ℓ κ} :
    {A : Type ℓ} (P : A → Type κ) (n : ℕ) (xs : List A) → All P xs → All P (take n xs)
take-All P zero xs h = tt
take-All P (suc n) [] h = tt
take-All P (suc n) (x ∷ xs) (p, h) = (p, take-All P n xs h)
