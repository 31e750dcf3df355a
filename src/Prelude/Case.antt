-- ===== src/Prelude/Case.antt =====
-- How the operations on text behave when the letters change case.
use mathlib.Core.List.{reverse, reverse_aux}
use sumurai.Prelude.Tests.{Bool-cases}
use sumurai.Prelude.{ℕ, zero, suc, ◌≡◌, refl, inl, inr, Bool, List, [], ◌∷◌, map, arith, drop}
use sumurai.Prelude.Text.{
  Text, lower, upper, to_lower_case, is_space, is_empty, trim_start, trim, split, cons_first,
}

pub lower_idem : (c : ℕ) → lower (lower c) ≡ lower c
unfolding lower
lower_idem c = ground arith

pub upper-lower : (c : ℕ) → upper (lower c) ≡ upper c
unfolding lower upper
upper-lower c = ground arith

pub is_space-lower : (c : ℕ) → is_space (lower c) ≡ is_space c
unfolding lower
is_space-lower c = ground arith

pub to_lower_case_idem : (s : Text) → to_lower_case (to_lower_case s) ≡ to_lower_case s
unfolding to_lower_case
to_lower_case_idem [] = refl
to_lower_case_idem (c ∷ s) = cc (lower_idem c, to_lower_case_idem s)

pub is_empty-to_lower_case : (s : Text) → is_empty (to_lower_case s) ≡ is_empty s
unfolding to_lower_case
is_empty-to_lower_case [] = refl
is_empty-to_lower_case (c ∷ s) = refl

pub drop-to_lower_case : (n : ℕ) (s : Text) → drop n (to_lower_case s) ≡ to_lower_case (drop n s)
unfolding to_lower_case
drop-to_lower_case zero s = refl
drop-to_lower_case (suc n) [] = refl
drop-to_lower_case (suc n) (c ∷ s) = drop-to_lower_case n s

trim_start-to_lower_case : (s : Text) → trim_start (to_lower_case s) ≡ to_lower_case (trim_start s)
unfolding to_lower_case trim_start
trim_start-to_lower_case [] = refl
trim_start-to_lower_case (c ∷ s) = elim (Bool-cases (is_space c)) [
  | inl e ↦ rw (is_space-lower c, e) (trim_start-to_lower_case s)
  | inr e ↦ rw (is_space-lower c, e)
]

reverse_aux-map :
    (s t : Text) → reverse_aux (map lower s) (map lower t) ≡ map lower (reverse_aux s t)
reverse_aux-map [] t = refl
reverse_aux-map (c ∷ s) t = reverse_aux-map s (c ∷ t)

reverse-to_lower_case : (s : Text) → reverse (to_lower_case s) ≡ to_lower_case (reverse s)
unfolding to_lower_case
reverse-to_lower_case s = reverse_aux-map s []

pub trim-to_lower_case : (s : Text) → trim (to_lower_case s) ≡ to_lower_case (trim s)
unfolding trim
trim-to_lower_case s = simp (trim_start-to_lower_case, reverse-to_lower_case)

cons_first-to_lower_case :
    (c : ℕ) (ws : List Text)
    → cons_first (lower c) (map to_lower_case ws) ≡ map to_lower_case (cons_first c ws)
unfolding to_lower_case
cons_first-to_lower_case c [] = refl
cons_first-to_lower_case c (w ∷ ws) = refl

-- Splitting at characters that are no letters commutes with the change of case.
pub split-to_lower_case :
    (p : ℕ → Bool) (s : Text)
    → ((c : ℕ) → p (lower c) ≡ p c)
    → split p (to_lower_case s) ≡ map to_lower_case (split p s)
unfolding split to_lower_case
split-to_lower_case p [] h = refl
split-to_lower_case p (c ∷ s) h = elim (Bool-cases (p c)) [
  | inl e ↦ rw (h c, e, split-to_lower_case p s h)
  | inr e ↦ rw (h c, e, split-to_lower_case p s h) (cons_first-to_lower_case c (split p s))
]
