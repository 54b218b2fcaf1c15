-- ===== src/Base/Lists.antt =====
-- Lists measured by native numbers, under the library's names, and predicates on lists.
use Prim.Native.Nat.{ℕ, zero, suc, ◌+◌, ◌-◌, min}
use mathlib.Core.Path.{◌≡◌, refl, ap}
use mathlib.Core.Bool.{Bool, true, false}
use mathlib.Core.List.{List, [], ◌∷◌, ◌++◌, map}
use mathlib.Core.Option.{Option, none, some}
use native.Mathlib.Omega.{arith}

module _ {ℓ} {A : Type ℓ} where
  abbrev pub length : List A → ℕ
  length [] = 0
  length (x ∷ xs) = suc (length xs)

  abbrev pub get_elem? : List A → ℕ → Option A
  get_elem? [] i = none
  get_elem? (x ∷ xs) zero = some x
  get_elem? (x ∷ xs) (suc i) = get_elem? xs i

  abbrev pub take : ℕ → List A → List A
  take zero xs = []
  take (suc n) [] = []
  take (suc n) (x ∷ xs) = x ∷ take n xs

  abbrev pub drop : ℕ → List A → List A
  drop zero xs = xs
  drop (suc n) [] = []
  drop (suc n) (x ∷ xs) = drop n xs

  pub length-append : (xs ys : List A) → length (xs ++ ys) ≡ length xs + length ys
  length-append [] ys = omega arith
  length-append (x ∷ xs) ys = omega (arith, length-append xs ys)

  pub take-append-drop : (n : ℕ) (xs : List A) → take n xs ++ drop n xs ≡ xs
  take-append-drop zero xs = refl
  take-append-drop (suc n) [] = refl
  take-append-drop (suc n) (x ∷ xs) = rw (take-append-drop n xs)

  pub length-take : (n : ℕ) (xs : List A) → length (take n xs) ≡ min n (length xs)
  length-take zero xs = omega arith
  length-take (suc n) [] = omega arith
  length-take (suc n) (x ∷ xs) = omega (arith, length-take n xs)

  pub length-drop : (n : ℕ) (xs : List A) → length (drop n xs) ≡ length xs - n
  length-drop zero xs = omega arith
  length-drop (suc n) [] = omega arith
  length-drop (suc n) (x ∷ xs) = omega (arith, length-drop n xs)

  -- Keeps the elements that pass the test.
  abbrev pub select : (A → Bool) → List A → List A
  select p [] = []
  select p (x ∷ xs) = elim (p x) [ true ↦ x ∷ select p xs | false ↦ select p xs ]

  abbrev pub find? : (A → Bool) → List A → Option A
  find? p [] = none
  find? p (x ∷ xs) = elim (p x) [ true ↦ some x | false ↦ find? p xs ]

  abbrev pub any : (A → Bool) → List A → Bool
  any p [] = false
  any p (x ∷ xs) = elim (p x) [ true ↦ true | false ↦ any p xs ]

  -- Every element satisfies the predicate.
  abbrev pub All {κ} : (A → Type κ) → List A → Type κ
  All P [] = Unit
  All P (x ∷ xs) = P x × All P xs

module _ {ℓ κ} {A : Type ℓ} (P : A → Type κ) where
  pub All-append : (xs ys : List A) → All P xs → All P ys → All P (xs ++ ys)
  All-append [] ys hx hy = hy
  All-append (x ∷ xs) ys hx hy = (hx.0, All-append xs ys hx.1 hy)

  pub All-select : (p : A → Bool) (xs : List A) → All P xs → All P (select p xs)
  All-select p [] h = tt
  All-select p (x ∷ xs) h = ground (arith, All-select p xs h.1)

module _ {ℓ} {A : Type ℓ} where
  pub select-append :
      (p : A → Bool) (xs ys : List A) → select p (xs ++ ys) ≡ select p xs ++ select p ys
  select-append p [] ys = refl
  select-append p (x ∷ xs) ys = ground (arith, select-append p xs ys)

  pub select_hit :
      (p : A → Bool) (a : A) (xs : List A) → p a ≡ true → select p (a ∷ xs) ≡ a ∷ select p xs
  select_hit p a xs h = ground arith

  pub select_miss :
      (p : A → Bool) (a : A) (xs : List A) → p a ≡ false → select p (a ∷ xs) ≡ select p xs
  select_miss p a xs h = ground arith

  pub select_one : (p : A → Bool) (a : A) → p a ≡ true → select p (a ∷ []) ≡ a ∷ []
  select_one p a h = ground arith

  pub select_none : (p : A → Bool) (a : A) → p a ≡ false → select p (a ∷ []) ≡ []
  select_none p a h = ground arith

  -- Filtering what is kept, by a test that agrees there.
  pub select_cut :
      (p q r : A → Bool) (xs : List A)
      → ((a : A) → p a ≡ true → q a ≡ r a)
      → select r (select p xs) ≡ select p (select q xs)
  select_cut p q r [] h = refl
  select_cut p q r (x ∷ xs) h = ground (arith, select_cut p q r xs h, h x)

  pub select_ignores :
      (p q : A → Bool) (xs : List A)
      → ((a : A) → p a ≡ true → q a ≡ true)
      → select p (select q xs) ≡ select p xs
  select_ignores p q [] h = refl
  select_ignores p q (x ∷ xs) h = ground (arith, select_ignores p q xs h, h x)

  pub select_nothing :
      (p q : A → Bool) (xs : List A)
      → ((a : A) → p a ≡ true → q a ≡ false)
      → select p (select q xs) ≡ []
  select_nothing p q [] h = refl
  select_nothing p q (x ∷ xs) h = ground (arith, select_nothing p q xs h, h x)

pub All-imp {ℓ κ μ} :
    {A : Type ℓ} (P : A → Type κ) (Q : A → Type μ) (xs : List A)
    → ((a : A) → P a → Q a)
    → All P xs
    → All Q xs
All-imp P Q [] f h = tt
All-imp P Q (x ∷ xs) f h = (f x h.0, All-imp P Q xs f h.1)

-- Leaving one element out, and the element that is left out.
pub All-split {ℓ κ} :
    {A : Type ℓ} (P : A → Type κ) (xs : List A) (a : A) (ys : List A)
    → All P (xs ++ (a ∷ ys))
    → P a × All P (xs ++ ys)
All-split P [] a ys h = h
All-split P (x ∷ xs) a ys h = let (p, q) = All-split P xs a ys h.1 in (p, (h.0, q))

pub All-join {ℓ κ} :
    {A : Type ℓ} (P : A → Type κ) (xs : List A) (a : A) (ys : List A)
    → P a
    → All P (xs ++ ys)
    → All P (xs ++ (a ∷ ys))
All-join P [] a ys p h = (p, h)
All-join P (x ∷ xs) a ys p h = (h.0, All-join P xs a ys p h.1)

pub length-map {ℓ κ} :
    {A : Type ℓ} {B : Type κ} (f : A → B) (xs : List A) → length (map f xs) ≡ length xs
length-map f [] = refl
length-map f (x ∷ xs) = ap suc (length-map f xs)

pub select-map {ℓ κ} :
    {A : Type ℓ} {B : Type κ} (p : B → Bool) (f : A → B) (xs : List A)
    → select p (map f xs) ≡ map f (select (λ x. p (f x)) xs)
select-map p f [] = refl
select-map p f (x ∷ xs) = ground (arith, select-map p f xs)
