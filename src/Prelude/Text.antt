-- ===== src/Prelude/Text.antt =====
-- Text as the list of its UTF-16 code units, with the operations of `String.prototype` that the
-- program calls. Letter case is that of ASCII, and white space is that of ASCII and U+00A0.
use Prim.Native.Nat.{ℕ, ◌+◌, ◌-◌, compare, Ordering}
use Prim.Native.Char.{code}
use Prim.Native.String.{String}
use mathlib.Core.Path.{◌≡◌, refl}
use mathlib.Core.Logic.{◌↔◌, ◌≢◌}
use mathlib.Core.Bool.{Bool, true, false, ◌&&◌, ◌||◌}
use mathlib.Core.List.{List, [], ◌∷◌, ◌++◌, map, reverse}
use mathlib.Core.Option.{Option, none, some}
use native.Mathlib.Omega.{arith}
use sumurai.Prelude.Tests.{leb, ◌==◌, if◌then◌else◌}
use sumurai.Prelude.Lists.{any}

abbrev pub Text : Type 0
Text = List ℕ

abbrev pub lit : String → Text
lit String.[] = []
lit (String.◌∷◌ c s) = code c ∷ lit s

unfoldable pub eq : Text → Text → Bool
eq [] [] = true
eq [] (_ ∷ _) = false
eq (_ ∷ _) [] = false
eq (c ∷ s) (d ∷ t) = (c == d) && eq s t

-- The order of `<` and `<=` on strings.
unfoldable pub compare_text : Text → Text → Ordering
compare_text [] [] = Ordering.eq
compare_text [] (_ ∷ _) = Ordering.lt
compare_text (_ ∷ _) [] = Ordering.gt
compare_text (c ∷ s) (d ∷ t) = elim (compare c d) [
  | Ordering.lt ↦ Ordering.lt
  | Ordering.eq ↦ compare_text s t
  | Ordering.gt ↦ Ordering.gt
]

unfoldable pub le_text : Text → Text → Bool
le_text s t = elim (compare_text s t) [ Ordering.gt ↦ false | _ ↦ true ]

unfoldable pub lower : ℕ → ℕ
lower c = if leb b'A' c && leb c b'Z' then c + 32 else c

unfoldable pub upper : ℕ → ℕ
upper c = if leb b'a' c && leb c b'z' then c - 32 else c

unfoldable pub to_lower_case : Text → Text
unfolding lower
to_lower_case s = map lower s

-- the other spaces of Unicode, the line ends and the byte order mark
abbrev pub is_wide_space : ℕ → Bool
is_wide_space c =
    (c == 160)
    || (c == 5760)
    || (leb 8192 c && leb c 8202)
    || (c == 8232)
    || (c == 8233)
    || (c == 8239)
    || (c == 8287)
    || (c == 12288)
    || (c == 65279)

abbrev pub is_space : ℕ → Bool
is_space c = (c == 32) || (leb 9 c && leb c 13) || is_wide_space c

abbrev pub is_digit : ℕ → Bool
is_digit c = leb b'0' c && leb c b'9'

-- `[a-z0-9]`
abbrev pub is_alnum : ℕ → Bool
is_alnum c = (leb b'a' c && leb c b'z') || is_digit c

unfoldable pub trim_start : Text → Text
trim_start [] = []
trim_start (c ∷ s) = if is_space c then trim_start s else c ∷ s

unfoldable pub trim : Text → Text
unfolding trim_start
trim s = reverse (trim_start (reverse (trim_start s)))

unfoldable pub starts_with : Text → Text → Bool
starts_with s [] = true
starts_with [] (_ ∷ _) = false
starts_with (c ∷ s) (d ∷ t) = (c == d) && starts_with s t

unfoldable pub includes : Text → Text → Bool
unfolding starts_with
includes [] t = starts_with [] t
includes (c ∷ s) t = starts_with (c ∷ s) t || includes s t

-- `!s` of a string
abbrev pub is_empty : Text → Bool
is_empty [] = true
is_empty (_ ∷ _) = false

-- `a || b` of strings, the left one perhaps undefined
abbrev pub or_text : Option Text → Text → Text
or_text none t = t
or_text (some []) t = t
or_text (some (c ∷ s)) t = c ∷ s

-- one more character in front of the first piece
abbrev pub cons_first : ℕ → List Text → List Text
cons_first c [] = (c ∷ []) ∷ []
cons_first c (w ∷ ws) = (c ∷ w) ∷ ws

-- the pieces between separators, as `split` gives them
unfoldable pub split : (ℕ → Bool) → Text → List Text
split p [] = [] ∷ []
split p (c ∷ s) = let rest = split p s in if p c then [] ∷ rest else cons_first c rest

unfoldable pub join : Text → List Text → Text
join sep [] = []
join sep (w ∷ []) = w
join sep (w ∷ v ∷ ws) = w ++ sep ++ join sep (v ∷ ws)

abbrev pub contains : List Text → Text → Bool
contains ws t = any (λ w. eq w t) ws

pub eq_iff : (s t : Text) → (eq s t ≡ true) ↔ (s ≡ t)
unfolding eq
eq_iff [] [] = ground arith
eq_iff [] (_ ∷ _) = ground arith
eq_iff (_ ∷ _) [] = ground arith
eq_iff (c ∷ s) (d ∷ t) = ground (arith, eq_iff s t)

pub eq-false : (s t : Text) → s ≢ t → eq s t ≡ false
eq-false s t h =
    elim (eq s t) as (λ b. eq s t ≡ b → b ≡ false) [
      | true ↦ λ p. absurd (h ((eq_iff s t).0 p))
      | false ↦ λ p. refl
    ]
      refl

pub lower_idem : (c : ℕ) → lower (lower c) ≡ lower c
unfolding lower
lower_idem c = ground arith
