-- ===== src/Prelude/Int.antt =====
-- Python's int and the cents of a Decimal with two places: signed integers over the native
-- numbers. Sums and orders go through the two parts, which are numbers that `omega` reads.
use Prim.Native.Nat.{ℕ, suc, ◌+◌, ◌-◌, ◌*◌, ◌≤◌}
use mathlib.Core.Path.{◌≡◌, ap}
use mathlib.Core.Logic.{◌⊎◌}
use mathlib.Core.Bool.{Bool, true, false}
use mathlib.Core.List.{List, [], ◌∷◌, ◌++◌}
use native.Mathlib.Omega.{arith}
use ecommerce.Prelude.Tests.{ltb, leb, if◌then◌else◌}
use ecommerce.Prelude.Lists.{All}

-- `negsuc n` is -(n + 1).
pub data ℤ : Type 0 where
  pos : ℕ → ℤ
  negsuc : ℕ → ℤ

abbrev pub pos_part : ℤ → ℕ
pos_part (pos n) = n
pos_part (negsuc n) = 0

abbrev pub neg_part : ℤ → ℕ
neg_part (pos n) = 0
neg_part (negsuc n) = suc n

-- a - b, as an integer.
abbrev pub sub_ℕ : ℕ → ℕ → ℤ
sub_ℕ a b = if leb b a then pos (a - b) else negsuc (b - a - 1)

infixl 65 ◌+ℤ◌ ◌-ℤ◌
infixl 70 ◌*ℤ◌
infix 50 ◌≤ℤ◌
unfoldable pub ◌+ℤ◌ : ℤ → ℤ → ℤ
a +ℤ b = sub_ℕ (pos_part a + pos_part b) (neg_part a + neg_part b)

unfoldable pub ◌-ℤ◌ : ℤ → ℤ → ℤ
a -ℤ b = sub_ℕ (pos_part a + neg_part b) (neg_part a + pos_part b)

unfoldable pub ◌*ℤ◌ : ℤ → ℤ → ℤ
a *ℤ b =
    sub_ℕ (pos_part a * pos_part b + neg_part a * neg_part b)
      (pos_part a * neg_part b + neg_part a * pos_part b)

abbrev pub ◌≤ℤ◌ : ℤ → ℤ → Type 0
a ≤ℤ b = pos_part a + neg_part b ≤ pos_part b + neg_part a

abbrev pub ltb_ℤ : ℤ → ℤ → Bool
ltb_ℤ a b = ltb (pos_part a + neg_part b) (pos_part b + neg_part a)

abbrev pub leb_ℤ : ℤ → ℤ → Bool
leb_ℤ a b = leb (pos_part a + neg_part b) (pos_part b + neg_part a)

unfoldable pub min_ℤ : ℤ → ℤ → ℤ
min_ℤ a b = if ltb_ℤ b a then b else a

unfoldable pub max_ℤ : ℤ → ℤ → ℤ
max_ℤ a b = if ltb_ℤ a b then b else a

-- One lemma for each operation lets `omega` work with the operations shut, at any depth.
pub +ℤ_parts :
    (a b : ℤ)
    → pos_part (a +ℤ b) + neg_part a + neg_part b ≡ neg_part (a +ℤ b) + pos_part a + pos_part b
unfolding ◌+ℤ◌
+ℤ_parts a b = ground arith

pub -ℤ_parts :
    (a b : ℤ)
    → pos_part (a -ℤ b) + neg_part a + pos_part b ≡ neg_part (a -ℤ b) + pos_part a + neg_part b
unfolding ◌-ℤ◌
-ℤ_parts a b = ground arith

pub min_parts :
    (a b : ℤ) → (min_ℤ a b ≤ℤ a) × (min_ℤ a b ≤ℤ b) × ((a ≤ℤ min_ℤ a b) ⊎ (b ≤ℤ min_ℤ a b))
unfolding min_ℤ
min_parts a b = ground arith

pub max_parts :
    (a b : ℤ) → (a ≤ℤ max_ℤ a b) × (b ≤ℤ max_ℤ a b) × ((max_ℤ a b ≤ℤ a) ⊎ (max_ℤ a b ≤ℤ b))
unfolding max_ℤ
max_parts a b = ground arith

pub eq_of_parts : (a b : ℤ) → pos_part a + neg_part b ≡ pos_part b + neg_part a → a ≡ b
eq_of_parts a b h = ground arith

pub ltb-eq_true : (a b : ℤ) → ltb_ℤ a b ≡ true → pos 1 +ℤ a ≤ℤ b
unfolding ◌+ℤ◌
ltb-eq_true a b h = ground arith

pub ltb-eq_false : (a b : ℤ) → ltb_ℤ a b ≡ false → b ≤ℤ a
ltb-eq_false a b h = ground arith

pub leb-eq_true : (a b : ℤ) → leb_ℤ a b ≡ true → a ≤ℤ b
leb-eq_true a b h = ground arith

pub leb-eq_false : (a b : ℤ) → leb_ℤ a b ≡ false → pos 1 +ℤ b ≤ℤ a
unfolding ◌+ℤ◌
leb-eq_false a b h = ground arith

pub ruleset int_laws = (
  arith, +ℤ_parts, -ℤ_parts, min_parts, max_parts, eq_of_parts, ltb-eq_true, ltb-eq_false,
  leb-eq_true, leb-eq_false,
)

pub +ℤ_assoc : (a b c : ℤ) → a +ℤ b +ℤ c ≡ a +ℤ (b +ℤ c)
+ℤ_assoc a b c = omega int_laws

pub +ℤ_comm : (a b : ℤ) → a +ℤ b ≡ b +ℤ a
+ℤ_comm a b = omega int_laws

-- The sum of a weight over a list, as Python's `sum(w(x) for x in xs)`.
unfoldable pub total {ℓ} : {A : Type ℓ} → (A → ℤ) → List A → ℤ
total w [] = pos 0
total w (x ∷ xs) = w x +ℤ total w xs

pub total_nonneg {ℓ} :
    {A : Type ℓ} (w : A → ℤ) (xs : List A) → All (λ a. pos 0 ≤ℤ w a) xs → pos 0 ≤ℤ total w xs
unfolding total
total_nonneg w [] h = omega arith
total_nonneg w (x ∷ xs) h = omega (int_laws, h.0, total_nonneg w xs h.1)

pub total-append {ℓ} :
    {A : Type ℓ} (w : A → ℤ) (xs ys : List A) → total w (xs ++ ys) ≡ total w xs +ℤ total w ys
unfolding total
total-append w [] ys = omega int_laws
total-append w (x ∷ xs) ys = rw (total-append w xs ys) (eq_of_parts _ _ (omega int_laws))

-- The parts of equal integers, for `omega`.
pub parts_of_eq : {a b : ℤ} → a ≡ b → pos_part a + neg_part b ≡ pos_part b + neg_part a
parts_of_eq h = rw h (omega arith)

pub leb_intro : (a b : ℤ) → a ≤ℤ b → leb_ℤ a b ≡ true
leb_intro a b h = ground arith

pub ltb_intro : (a b : ℤ) → pos 1 +ℤ a ≤ℤ b → ltb_ℤ a b ≡ true
unfolding ◌+ℤ◌
ltb_intro a b h = ground arith

pub *ℤ_nonneg : (a b : ℤ) → pos 0 ≤ℤ a → pos 0 ≤ℤ b → pos 0 ≤ℤ a *ℤ b
unfolding ◌*ℤ◌
*ℤ_nonneg a b h k = grind arith

pub *ℤ_parts :
    (a b : ℤ)
    → pos_part (a *ℤ b) + (pos_part a * neg_part b + neg_part a * pos_part b)
      ≡ neg_part (a *ℤ b) + (pos_part a * pos_part b + neg_part a * neg_part b)
unfolding ◌*ℤ◌
*ℤ_parts a b = ground arith

pub *ℤ_distrib : (a b c : ℤ) → a *ℤ (b +ℤ c) ≡ a *ℤ b +ℤ a *ℤ c
*ℤ_distrib a b c = eq_of_parts _ _ (
    omega (
      int_laws,
      *ℤ_parts a b,
      *ℤ_parts a c,
      *ℤ_parts a (b +ℤ c),
      ap (λ (t : ℕ). pos_part a * t) (+ℤ_parts b c),
      ap (λ (t : ℕ). neg_part a * t) (+ℤ_parts b c),
    ))
