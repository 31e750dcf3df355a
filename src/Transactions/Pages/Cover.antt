-- ===== src/Transactions/Pages/Cover.antt =====
-- frontend/src/features/transactions/hooks/useTransactions.ts: the pages are the whole list.
use sumurai.Prelude.{
  mul_mono, min, ◌⊎◌, inl, inr, ℕ, zero, suc, ◌+◌, ◌-◌, ◌*◌, ◌/◌, ◌≤◌, ◌<◌, ◌≡◌, refl, ap, sym, ◌∙◌,
  List, [], ◌∷◌, ◌++◌, take, drop, length, max, arith,
}
use sumurai.Transactions.Pages.{total_pages, page_items, clamp_page}

-- The first n pages, one after the other.
abbrev pub first_pages {ℓ} : {A : Type ℓ} → ℕ → ℕ → List A → List A
first_pages page_size zero items = []
first_pages page_size (suc n) items =
    first_pages page_size n items ++ page_items page_size (suc n) items

take_add {ℓ} :
    {A : Type ℓ} (m n : ℕ) (xs : List A) → take (m + n) xs ≡ take m xs ++ take n (drop m xs)
take_add zero n xs = let e : 0 + n ≡ n = omega arith in ap (λ k. take k xs) e
take_add (suc m) zero [] = let e : suc m + 0 ≡ suc m = omega arith in ap (λ k. take k []) e
take_add (suc m) (suc n) [] =
    let e : suc m + suc n ≡ suc (m + suc n) = omega arith in ap (λ k. take k []) e
take_add (suc m) n (x ∷ xs) =
    let e : suc m + n ≡ suc (m + n) = omega arith in
    ap (λ k. take k (x ∷ xs)) e ∙ ap (λ l. x ∷ l) (take_add m n xs)

take_all {ℓ} : {A : Type ℓ} (n : ℕ) (xs : List A) → length xs ≤ n → take n xs ≡ xs
take_all zero [] h = refl
take_all zero (x ∷ xs) h = absurd (omega arith)
take_all (suc n) [] h = refl
take_all (suc n) (x ∷ xs) h = ap (λ l. x ∷ l) (take_all n xs (omega arith))

length-drop {ℓ} : {A : Type ℓ} (n : ℕ) (xs : List A) → length (drop n xs) ≡ length xs - n
length-drop zero xs = omega arith
length-drop (suc n) [] = omega arith
length-drop (suc n) (x ∷ xs) = omega (arith, length-drop n xs)

length-take-min {ℓ} : {A : Type ℓ} (n : ℕ) (xs : List A) → length (take n xs) ≡ min n (length xs)
length-take-min zero xs = omega arith
length-take-min (suc n) [] = omega arith
length-take-min (suc n) (x ∷ xs) = omega (arith, length-take-min n xs)

first_pages-take {ℓ} :
    {A : Type ℓ} (page_size n : ℕ) (xs : List A)
    → first_pages page_size n xs ≡ take (n * page_size) xs
unfolding page_items
first_pages-take page_size zero xs =
    let e : 0 * page_size ≡ 0 = omega arith in ap (λ k. take k xs) (sym e)
first_pages-take page_size (suc n) xs =
    let at : suc n - 1 ≡ n = omega arith in
    let e : suc n * page_size ≡ n * page_size + page_size = omega arith in
    ap (λ l. l ++ take page_size (drop ((suc n - 1) * page_size) xs))
      (first_pages-take page_size n xs)
    ∙ ap (λ k. take (n * page_size) xs ++ take page_size (drop (k * page_size) xs)) at
    ∙ sym (ap (λ k. take k xs) e ∙ take_add (n * page_size) page_size xs)

length-page_items {ℓ} :
    {A : Type ℓ} (page_size page : ℕ) (xs : List A)
    → length (page_items page_size page xs) ≡ min page_size (length xs - (page - 1) * page_size)
unfolding page_items
length-page_items page_size page xs =
    length-take-min page_size _ ∙ ap (min page_size) (length-drop ((page - 1) * page_size) xs)

all_pages : (s n : ℕ) → 1 ≤ s → n ≤ total_pages s n * s
unfolding total_pages
all_pages s n h =
    omega (arith, mul_mono ((n + s - 1) / s) (max 1 ((n + s - 1) / s)) s (omega arith))

before_end : (s n q page : ℕ) → q * s < n + s → 1 ≤ n → page ≤ max 1 q → (page - 1) * s < n
before_end s n zero page h k p = omega (arith, mul_mono (page - 1) 0 s (omega arith))
before_end s n (suc q) page h k p = omega (arith, mul_mono (page - 1) q s (omega arith))

page_before_end : (s n page : ℕ) → 1 ≤ s → 1 ≤ n → page ≤ total_pages s n → (page - 1) * s < n
unfolding total_pages
page_before_end s n page h k p = before_end s n ((n + s - 1) / s) page (omega arith) k p

shown_some :
    (s n page m : ℕ)
    → 1 ≤ s
    → page ≤ total_pages s n
    → m ≡ min s (n - (page - 1) * s)
    → (n ≡ 0) ⊎ (1 ≤ m)
shown_some s zero page m h p e = inl refl
shown_some s (suc n) page m h p e =
    inr (omega (arith, page_before_end s (suc n) page h (omega arith) p))

clamp_page_le : (total current : ℕ) → clamp_page total current ≤ total
unfolding clamp_page
clamp_page_le total current = ground arith

-- The pages, one after the other, are all transactions, so that each is on exactly one page. The page
-- that is shown holds no more than its size, and is only empty when there are no transactions.
pub first_pages-total_pages {ℓ} :
    {A : Type ℓ} (page_size current : ℕ) (xs : List A)
    → 1 ≤ page_size
    → let total = total_pages page_size (length xs) in
      let shown = page_items page_size (clamp_page total current) xs in
      (first_pages page_size total xs ≡ xs)
      × (length shown ≤ page_size)
      × ((length xs ≡ 0) ⊎ (1 ≤ length shown))
first_pages-total_pages page_size current xs h =
    let total = total_pages page_size (length xs) in
    let page = clamp_page total current in
    (
      first_pages-take page_size total xs ∙ take_all _ xs (all_pages page_size (length xs) h),
      omega (arith, length-page_items page_size page xs),
      shown_some page_size (length xs) page _ h (clamp_page_le total current)
          (length-page_items page_size page xs),
    )
