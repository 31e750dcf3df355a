-- ===== src/Transactions/Globs/Matching.antt =====
-- frontend/src/features/transactions/hooks/useTransactions.ts: which texts a pattern of a category
-- rule stands for.
use sumurai.Prelude.{
  ℕ, ◌≡◌, ◌≢◌, ◌↔◌, refl, Bool, true, false, [], ◌∷◌, ◌++◌, all, if◌then◌else◌, ◌==◌, arith, inl,
  inr, Bool-cases, ap,
}
use sumurai.Prelude.Text.{Text, is_empty}
use sumurai.Transactions.Globs.{
  is_dot, matches_one, matches_star, matches_next, matches_pattern, match_glob,
}

-- some text within a line, and then what R says
abbrev pub StarThen : (Text → Type 0) → Text → Type 0
StarThen R s = (a : Text) × (b : Text) × (s ≡ a ++ b) × (all is_dot a ≡ true) × R b

-- one character, and then what R says
abbrev pub OneThen : ℕ → (Text → Type 0) → Text → Type 0
OneThen p R s = (c : ℕ) × (b : Text) × (s ≡ c ∷ b) × (matches_one p c ≡ true) × R b

-- A star stands for any text within a line, and another character of the pattern for one character.
abbrev pub Stands : Text → Text → Type 0
Stands [] s = s ≡ []
Stands (p ∷ ps) s = if p == b'*' then StarThen (Stands ps) s else OneThen p (Stands ps) s

matches_star_split :
    (rest : Text → Bool) (s : Text)
    → matches_star rest s ≡ true
    → (a : Text) × (b : Text) × (s ≡ a ++ b) × (all is_dot a ≡ true) × (rest b ≡ true)
unfolding matches_star
matches_star_split rest [] h = ([], [], refl, refl, h)
matches_star_split rest (c ∷ s) h = elim (Bool-cases (rest (c ∷ s))) [
  | inl p ↦ ([], c ∷ s, refl, refl, p)
  | inr p ↦
      let (a, b, e, d, r) = matches_star_split rest s (ground arith) in
      (c ∷ a, b, ap (λ t. c ∷ t) e, ground arith, r)
]

matches_star_join :
    (rest : Text → Bool) (a b : Text)
    → all is_dot a ≡ true
    → rest b ≡ true
    → matches_star rest (a ++ b) ≡ true
unfolding matches_star
matches_star_join rest [] [] h k = k
matches_star_join rest [] (c ∷ b) h k = ground arith
matches_star_join rest (c ∷ a) b h k = ground (arith, matches_star_join rest a b)

is_empty_iff : (s : Text) → (is_empty s ≡ true) ↔ (s ≡ [])
is_empty_iff [] = (λ h. refl, λ h. refl)
is_empty_iff (c ∷ s) = (λ h. cc, λ h. cc)

matches_star_iff :
    (rest : Text → Bool) (R : Text → Type 0) (s : Text)
    → ((b : Text) → (rest b ≡ true) ↔ R b)
    → (matches_star rest s ≡ true) ↔ StarThen R s
matches_star_iff rest R s f = (
  λ h. let (a, b, e, d, r) = matches_star_split rest s h in (a, b, e, d, (f b).0 r),
  λ (a, b, e, d, r). rw e (matches_star_join rest a b d ((f b).1 r)),
)

matches_next_iff :
    (p : ℕ) (rest : Text → Bool) (R : Text → Type 0) (s : Text)
    → ((b : Text) → (rest b ≡ true) ↔ R b)
    → (matches_next p rest s ≡ true) ↔ OneThen p R s
unfolding matches_next
matches_next_iff p rest R [] f = (λ h. cc, λ (c, b, e, d, r). cc)
matches_next_iff p rest R (c ∷ s) f = (
  λ h. (c, s, refl, ground arith, (f s).0 (ground arith)),
  λ (d, b, e, m, r).
      let e1 : c ≡ d = cc in
      let e2 : s ≡ b = cc in ground (arith, ap (matches_one p) e1, ap rest e2, (f b).1 r),
)

if_iff :
    (b : Bool) (x y : Bool) (X Y : Type 0)
    → (x ≡ true) ↔ X
    → (y ≡ true) ↔ Y
    → ((if b then x else y) ≡ true) ↔ (if b then X else Y)
if_iff true x y X Y f g = f
if_iff false x y X Y f g = g

matches_pattern_iff : (p s : Text) → (matches_pattern p s ≡ true) ↔ Stands p s
unfolding matches_pattern
matches_pattern_iff [] s = is_empty_iff s
matches_pattern_iff (p ∷ ps) s =
    if_iff (p == b'*') _ _ _ _
      (matches_star_iff (matches_pattern ps) (Stands ps) s (matches_pattern_iff ps))
      (matches_next_iff p (matches_pattern ps) (Stands ps) s (matches_pattern_iff ps))

-- A pattern matches a text exactly when both are not empty and the whole text is what the pattern
-- stands for, from its first character to its last.
pub match_glob_iff : (p s : Text) → (match_glob p s ≡ true) ↔ ((p ≢ []) × (s ≢ []) × Stands p s)
unfolding match_glob
match_glob_iff [] s = (λ h. cc, λ h. absurd (h.0 refl))
match_glob_iff (p ∷ ps) [] = (λ h. cc, λ h. absurd (h.1 refl))
match_glob_iff (p ∷ ps) (c ∷ s) = (
  λ h. (λ e. cc, λ e. cc, (matches_pattern_iff (p ∷ ps) (c ∷ s)).0 h),
  λ h. (matches_pattern_iff (p ∷ ps) (c ∷ s)).1 h.2,
)
