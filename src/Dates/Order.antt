-- ===== src/Dates/Order.antt =====
-- The texts of dates are ordered as the dates are.
use Prim.Native.Nat.{compare, Ordering}
use mathlib.Core.List.{append_assoc}
use sumurai.Prelude.{
  ℕ, suc, ◌+◌, ◌/◌, ◌%◌, ◌≤◌, ◌<◌, ◌≡◌, refl, Bool, true, false, [], ◌∷◌, ◌++◌, arith, ltb,
  Bool-cases, ltb→lt, inl, inr,
}
use sumurai.Prelude.Text.{Text, compare_text, le_text}
use sumurai.Dates.{
  days_in_month, Date, number_text, digits_of, pad_start_two, date_text, two_digits, four_digits,
  iso,
}

-- The first difference decides.
abbrev pub lex : Ordering → Ordering → Ordering
lex Ordering.lt o = Ordering.lt
lex Ordering.eq o = o
lex Ordering.gt o = Ordering.gt

lex_assoc : (a b c : Ordering) → lex (lex a b) c ≡ lex a (lex b c)
lex_assoc Ordering.lt b c = refl
lex_assoc Ordering.eq b c = refl
lex_assoc Ordering.gt b c = refl

compare_text-cons :
    (c d : ℕ) (s t : Text) → compare_text (c ∷ s) (d ∷ t) ≡ lex (compare c d) (compare_text s t)
unfolding compare_text
compare_text-cons c d s t = ground arith

compare-add : (k a b : ℕ) → compare (k + a) (k + b) ≡ compare a b
compare-add k a b = ground arith

compare-tens : (a b : ℕ) → lex (compare (a / 10) (b / 10)) (compare (a % 10) (b % 10)) ≡ compare a b
compare-tens a b = ground arith

compare-hundreds :
    (a b : ℕ) → lex (compare (a / 100) (b / 100)) (compare (a % 100) (b % 100)) ≡ compare a b
compare-hundreds a b = ground arith

compare_text_refl : (c : ℕ) (s t : Text) → compare_text (c ∷ s) (c ∷ t) ≡ compare_text s t
unfolding compare_text
compare_text_refl c s t = ground arith

compare_two :
    (a b : ℕ) (s t : Text)
    → compare_text (two_digits a ++ s) (two_digits b ++ t) ≡ lex (compare a b) (compare_text s t)
unfolding two_digits
compare_two a b s t = simp (compare_text-cons, compare-add, ← lex_assoc, compare-tens)

lex-eq : (o : Ordering) → lex o Ordering.eq ≡ o
lex-eq Ordering.lt = refl
lex-eq Ordering.eq = refl
lex-eq Ordering.gt = refl

compare_text_end : (c d : ℕ) → compare_text (c ∷ []) (d ∷ []) ≡ compare c d
unfolding compare_text
compare_text_end c d = ground arith

compare_two_end : (a b : ℕ) → compare_text (two_digits a) (two_digits b) ≡ compare a b
unfolding two_digits
compare_two_end a b =
    rw
      (
        compare_text-cons,
        compare_text_end,
        compare-add 48 (a / 10) (b / 10),
        compare-add 48 (a % 10) (b % 10),
      )
      (compare-tens a b)

compare_four :
    (a b : ℕ) (s t : Text)
    → compare_text (four_digits a ++ s) (four_digits b ++ t) ≡ lex (compare a b) (compare_text s t)
unfolding four_digits
compare_four a b s t = simp (append_assoc, compare_two, ← lex_assoc, compare-hundreds)

-- The calendar's order: by year, then by month, then by day.
abbrev pub date_order : Date → Date → Ordering
date_order d e = lex (compare d.year e.year) (lex (compare d.month e.month) (compare d.day e.day))

-- The order of the texts of two dates is the order of the dates.
pub compare_text-iso : (d e : Date) → compare_text (iso d) (iso e) ≡ date_order d e
unfolding iso
compare_text-iso d e = rw (
  compare_four d.year e.year,
  compare_text_refl,
  compare_two d.month e.month,
  compare_text_refl,
  compare_two_end d.day e.day,
)

digits_of_small : (f n : ℕ) → n < 10 → digits_of (suc f) n ≡ (48 + n) ∷ []
unfolding digits_of
digits_of_small f n h = ground arith

digits_of_step :
    (f n : ℕ) → 10 ≤ n → digits_of (suc f) n ≡ digits_of f (n / 10) ++ (48 + n % 10) ∷ []
unfolding digits_of
digits_of_step f n h = ground arith

pad_start_two-number_text : (n : ℕ) → n < 100 → pad_start_two (number_text n) ≡ two_digits n
unfolding number_text pad_start_two two_digits
pad_start_two-number_text n h = elim (Bool-cases (ltb n 10)) [
  | inl small ↦ rw (digits_of_small 20 n (ltb→lt n 10 small)) (ground arith)
  | inr large ↦
      rw (digits_of_step 20 n (ground arith), digits_of_small 19 (n / 10) (ground arith))
        (ground arith)
]

number_text_year : (y : ℕ) → 1000 ≤ y → y < 10_000 → number_text y ≡ four_digits y
unfolding number_text four_digits two_digits
number_text_year y h k =
    rw
      (
        digits_of_step 20 y (omega arith),
        digits_of_step 19 (y / 10) (omega arith),
        digits_of_step 18 (y / 10 / 10) (omega arith),
        digits_of_small 17 (y / 10 / 10 / 10) (omega arith),
      )
      (ground arith)

-- For a year of four digits, and a month and a day of at most two, the program's way to write a date
-- agrees with `toISOString`.
pub date_text-iso :
    (y m d : ℕ)
    → 1000 ≤ y
    → y < 10_000
    → m < 100
    → d < 100
    → date_text y m d ≡ iso (record { year = y; month = m; day = d })
unfolding date_text iso
date_text-iso y m d h k hm hd =
    rw (number_text_year y h k, pad_start_two-number_text m hm, pad_start_two-number_text d hd)

-- `a <= b` between the texts of two dates.
abbrev pub not_after : Date → Date → Bool
not_after d e = elim (date_order d e) [ Ordering.gt ↦ false | _ ↦ true ]

pub le_text-iso : (d e : Date) → le_text (iso d) (iso e) ≡ not_after d e
unfolding le_text
le_text-iso d e = rw (compare_text-iso d e, le_text)

pub days_in_month_small : (y m : ℕ) → days_in_month y m < 100
unfolding days_in_month
days_in_month_small y m = ground arith
