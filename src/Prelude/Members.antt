-- ===== src/Prelude/Members.antt =====
-- Members of mapped and of filtered lists.
use sumurai.Prelude.{
  ◌≡◌, refl, sym, ap, ◌∙◌, ◌⊎◌, inl, inr, Bool, true, false, Bool-cases, List, [], ◌∷◌, map, filter,
  In, All, if◌then◌else◌,
}

pub In-map :
    {A B : Type 0} (f : A → B) (b : B) (xs : List A)
    → In b (map f xs)
    → (x : A) × (f x ≡ b) × In x xs
In-map f b [] h = absurd h
In-map f b (x ∷ xs) (inl e) = (x, sym e, inl refl)
In-map f b (x ∷ xs) (inr h) = let (y, e, i) = In-map f b xs h in (y, e, inr i)

pub map-In : {A B : Type 0} (f : A → B) (x : A) (xs : List A) → In x xs → In (f x) (map f xs)
map-In f x [] h = absurd h
map-In f x (y ∷ xs) (inl e) = inl (ap f e)
map-In f x (y ∷ xs) (inr h) = inr (map-In f x xs h)

In_if :
    {A : Type 0} (b : Bool) (x y : A) (xs : List A)
    → In x (if b then y ∷ xs else xs)
    → ((x ≡ y) × (b ≡ true)) ⊎ In x xs
In_if true x y xs (inl e) = inl (e, refl)
In_if true x y xs (inr i) = inr i
In_if false x y xs i = inr i

if_In : {A : Type 0} (b : Bool) (x y : A) (xs : List A) → In x xs → In x (if b then y ∷ xs else xs)
if_In true x y xs i = inr i
if_In false x y xs i = i

pub In-filter :
    {A : Type 0} (p : A → Bool) (x : A) (xs : List A) → In x (filter p xs) → In x xs × (p x ≡ true)
In-filter p x [] h = absurd h
In-filter p x (y ∷ xs) h = elim (In_if (p y) x y (filter p xs) h) [
  | inl (e, q) ↦ (inl e, ap p e ∙ q)
  | inr i ↦ let (j, q) = In-filter p x xs i in (inr j, q)
]

pub filter-In :
    {A : Type 0} (p : A → Bool) (x : A) (xs : List A) → In x xs → p x ≡ true → In x (filter p xs)
filter-In p x [] h q = absurd h
filter-In p x (y ∷ xs) (inl e) q = rw (sym (ap p e) ∙ q) (inl e)
filter-In p x (y ∷ xs) (inr i) q = if_In (p y) x y (filter p xs) (filter-In p x xs i q)

pub All_filter :
    {A : Type 0} (P Q : A → Type 0) (p : A → Bool)
    → ((x : A) → p x ≡ true → P x → Q x)
    → (xs : List A) → All P xs
    → All Q (filter p xs)
All_filter P Q p f [] h = tt
All_filter P Q p f (x ∷ xs) (h, hs) = elim (Bool-cases (p x)) [
  | inl e ↦ rw e (f x e h, All_filter P Q p f xs hs)
  | inr e ↦ rw e (All_filter P Q p f xs hs)
]
