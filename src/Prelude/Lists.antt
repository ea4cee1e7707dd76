-- ===== src/Prelude/Lists.antt =====
-- Lists measured by native numbers, filters and predicates on lists that compute.
use Prim.Native.Nat.{ℕ, zero, suc, ◌+◌}
use mathlib.Core.Path.{◌≡◌, refl}
use mathlib.Core.Bool.{Bool, true, false, ◌&&◌}
use mathlib.Core.List.{List, [], ◌∷◌, ◌++◌, map}
use mathlib.Core.Option.{Option, none, some}
use native.Mathlib.Omega.{arith}
use ecommerce.Prelude.Tests.{if◌then◌else◌}

module _ {ℓ} {A : Type ℓ} where
  abbrev pub length : List A → ℕ
  length [] = 0
  length (x ∷ xs) = suc (length xs)

  abbrev pub take : ℕ → List A → List A
  take zero xs = []
  take (suc n) [] = []
  take (suc n) (x ∷ xs) = x ∷ take n xs

  -- A comprehension's `if`, or a queryset's `filter`.
  abbrev pub filter_by : (A → Bool) → List A → List A
  filter_by p [] = []
  filter_by p (x ∷ xs) = let rest = filter_by p xs in if p x then x ∷ rest else rest

  abbrev pub any : (A → Bool) → List A → Bool
  any p [] = false
  any p (x ∷ xs) = let rest = any p xs in if p x then true else rest

  abbrev pub head? : List A → Option A
  head? [] = none
  head? (x ∷ xs) = some x

abbrev pub All {ℓ κ} : {A : Type ℓ} → (A → Type κ) → List A → Type κ
All P [] = Unit
All P (x ∷ xs) = P x × All P xs

pub All-map {ℓ κ} :
    {A : Type ℓ} (P Q : A → Type κ) (f : (a : A) → P a → Q a) (xs : List A) → All P xs → All Q xs
All-map P Q f [] h = tt
All-map P Q f (x ∷ xs) h = (f x h.0, All-map P Q f xs h.1)

pub All-append {ℓ κ} :
    {A : Type ℓ} (P : A → Type κ) (xs ys : List A) → All P xs → All P ys → All P (xs ++ ys)
All-append P [] ys hx hy = hy
All-append P (x ∷ xs) ys hx hy = (hx.0, All-append P xs ys hx.1 hy)

pub length-append {ℓ} : {A : Type ℓ} (xs ys : List A) → length (xs ++ ys) ≡ length xs + length ys
length-append [] ys = omega arith
length-append (x ∷ xs) ys = omega (arith, length-append xs ys)

-- The rows that a filter keeps pass its test.
pub filter_by-All {ℓ} :
    {A : Type ℓ} (p : A → Bool) (xs : List A) → All (λ a. p a ≡ true) (filter_by p xs)
filter_by-All p [] = tt
filter_by-All p (x ∷ xs) = ground (arith, filter_by-All p xs)

pub filter_by-filter_by {ℓ} :
    {A : Type ℓ} (p q : A → Bool) (xs : List A)
    → filter_by q (filter_by p xs) ≡ filter_by (λ a. p a && q a) xs
filter_by-filter_by p q [] = refl
filter_by-filter_by p q (x ∷ xs) = ground (arith, filter_by-filter_by p q xs)

pub filter_by-keeps-All {ℓ κ} :
    {A : Type ℓ} (P : A → Type κ) (p : A → Bool) (xs : List A) → All P xs → All P (filter_by p xs)
filter_by-keeps-All P p [] h = tt
filter_by-keeps-All P p (x ∷ xs) h = ground (arith, filter_by-keeps-All P p xs h.1)

pub filter_by_ext {ℓ} :
    {A : Type ℓ} (p q : A → Bool) (xs : List A)
    → ((a : A) → p a ≡ q a)
    → filter_by p xs ≡ filter_by q xs
filter_by_ext p q [] h = refl
filter_by_ext p q (x ∷ xs) h = ground (arith, h x, filter_by_ext p q xs h)

pub All-map_list {ℓ κ} :
    {A B : Type ℓ} (P : B → Type κ) (f : A → B) (xs : List A)
    → All (λ x. P (f x)) xs
    → All P (map f xs)
All-map_list P f [] h = tt
All-map_list P f (x ∷ xs) h = (h.0, All-map_list P f xs h.1)
