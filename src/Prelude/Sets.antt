-- ===== src/Prelude/Sets.antt =====
-- Lists of texts that stand for sets: what is in them, and no item twice.
use Prim.Native.Nat.{suc, ◌≤◌}
use mathlib.Core.Path.{◌≡◌, refl, ap}
use mathlib.Core.Logic.{inl, inr}
use mathlib.Core.Bool.{Bool, true, false, ◌||◌}
use mathlib.Core.List.{List, [], ◌∷◌, ◌++◌}
use native.Mathlib.Omega.{arith}
use sumurai.Prelude.Tests.{if◌then◌else◌, Bool-cases}
use sumurai.Prelude.Lists.{filter, length}
use sumurai.Prelude.Text.{Text, eq, eq_iff, contains}

abbrev pub NoDup : List Text → Type 0
NoDup [] = Unit
NoDup (x ∷ xs) = (contains xs x ≡ false) × NoDup xs

-- Everything in xs is in ys.
abbrev pub Sub : List Text → List Text → Type 0
Sub xs ys = (z : Text) → contains xs z ≡ true → contains ys z ≡ true

pub Sub-trans : (xs ys zs : List Text) → Sub xs ys → Sub ys zs → Sub xs zs
Sub-trans xs ys zs h k z p = k z (h z p)

pub eq_refl : (t : Text) → eq t t ≡ true
eq_refl t = (eq_iff t t).1 refl

pub eq_sym : (s t : Text) → eq s t ≡ eq t s
unfolding eq
eq_sym [] [] = refl
eq_sym [] (_ ∷ _) = refl
eq_sym (_ ∷ _) [] = refl
eq_sym (c ∷ s) (d ∷ t) = ground (arith, eq_sym s t)

pub eq-left : (s t u : Text) → eq s t ≡ true → eq s u ≡ eq t u
eq-left s t u h = ap (λ x. eq x u) ((eq_iff s t).0 h)

pub contains-append :
    (xs ys : List Text) (z : Text) → contains (xs ++ ys) z ≡ (contains xs z || contains ys z)
contains-append [] ys z = refl
contains-append (x ∷ xs) ys z = ground (arith, contains-append xs ys z)

pub contains-filter : (p : Text → Bool) (xs : List Text) → Sub (filter p xs) xs
contains-filter p [] z h = h
contains-filter p (x ∷ xs) z h = ground (arith, contains-filter p xs z)

pub eq-ap : (p : Text → Bool) (s t : Text) → eq s t ≡ true → p s ≡ p t
eq-ap p s t h = ap p ((eq_iff s t).0 h)

NoDup-if :
    (b : Bool) (x : Text) (l : List Text)
    → contains l x ≡ false
    → NoDup l
    → NoDup (if b then x ∷ l else l)
NoDup-if true x l h k = (h, k)
NoDup-if false x l h k = k

pub false_of_Sub :
    (xs ys : List Text) (z : Text) → Sub xs ys → contains ys z ≡ false → contains xs z ≡ false
false_of_Sub xs ys z h k = ground (arith, h z)

pub NoDup-filter : (p : Text → Bool) (xs : List Text) → NoDup xs → NoDup (filter p xs)
NoDup-filter p [] h = tt
NoDup-filter p (x ∷ xs) (h, hs) =
    NoDup-if (p x) x (filter p xs) (false_of_Sub _ xs x (contains-filter p xs) h)
      (NoDup-filter p xs hs)

pub NoDup-snoc :
    (xs : List Text) (z : Text) → NoDup xs → contains xs z ≡ false → NoDup (xs ++ z ∷ [])
NoDup-snoc [] z h k = (refl, tt)
NoDup-snoc (x ∷ xs) z (h, hs) k =
    (ground (arith, contains-append xs (z ∷ []) x, eq_sym x z), NoDup-snoc xs z hs (ground arith))

-- the list without the first z
erase : Text → List Text → List Text
erase z [] = []
erase z (x ∷ xs) = if eq x z then xs else x ∷ erase z xs

length-erase :
    (z : Text) (xs : List Text) → contains xs z ≡ true → suc (length (erase z xs)) ≡ length xs
unfolding erase
length-erase z [] h = cc
length-erase z (x ∷ xs) h = ground (arith, length-erase z xs)

contains-erase :
    (w z : Text) (xs : List Text)
    → contains xs z ≡ true
    → eq w z ≡ false
    → contains (erase w xs) z ≡ true
unfolding erase
contains-erase w z [] h k = h
contains-erase w z (x ∷ xs) h k = ground (arith, contains-erase w z xs, eq-left x w z)

other :
    (x z : Text) (xs : List Text) → contains xs x ≡ false → contains xs z ≡ true → eq x z ≡ false
other x z xs h p = elim (Bool-cases (eq x z)) [
  | inl q ↦ let e = ap (contains xs) ((eq_iff x z).0 q) in cc
  | inr q ↦ q
]

pub here : (x : Text) (xs : List Text) → contains (x ∷ xs) x ≡ true
here x xs = ground (arith, eq_refl x)

pub there : (x z : Text) (xs : List Text) → contains xs z ≡ true → contains (x ∷ xs) z ≡ true
there x z xs h = ground arith

Sub-erase : (x : Text) (xs ys : List Text) → contains xs x ≡ false → Sub xs ys → Sub xs (erase x ys)
Sub-erase x xs ys h k z p = contains-erase x z ys (k z p) (other x z xs h p)

-- No list without repetition is longer than one that holds all its items,
pub length-Sub : (xs ys : List Text) → NoDup xs → Sub xs ys → length xs ≤ length ys
length-Sub [] ys h k = omega arith
length-Sub (x ∷ xs) ys (h, hs) k = omega (
  arith,
  length-erase x ys (k x (here x xs)),
  length-Sub xs (erase x ys) hs (Sub-erase x xs ys h (λ z p. k z (there x z xs p))),
)

-- and one that is as long has them all.
pub Sub-of_length : (xs ys : List Text) → NoDup xs → Sub xs ys → length xs ≡ length ys → Sub ys xs
Sub-of_length xs ys h k e z p = elim (Bool-cases (contains xs z)) [
  | inl q ↦ q
  | inr q ↦
      absurd
        (omega (arith, length-erase z ys p, length-Sub xs (erase z ys) h (Sub-erase z xs ys q k)))
]
