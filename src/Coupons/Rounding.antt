-- ===== src/Coupons/Rounding.antt =====
-- `Decimal.quantize(Decimal("0.01"))`: rounding to the nearest cent, ties to the even one, which is
-- the rounding of Python's default decimal context.
use ecommerce.Prelude.{ℕ, suc, ◌+◌, ◌*◌, ◌/◌, ◌%◌, ◌≤◌, ◌≡◌, refl, arith, ltb, ◌==◌, if◌then◌else◌}
use ecommerce.Prelude.Int.{ℤ, pos, negsuc, pos_part, ◌-ℤ◌, ◌≤ℤ◌}

-- n / d to the nearest integer.
unfoldable pub round_half_even : ℕ → ℕ → ℕ
round_half_even n d =
    let q = n / d in
    let r = n % d in
    if ltb (2 * r) d then q else if ltb d (2 * r) then q + 1 else if q % 2 == 0 then q else q + 1

-- The same on signed numbers: the sign is kept and the magnitude is rounded.
unfoldable pub quantize : ℤ → ℕ → ℤ
unfolding round_half_even
quantize (pos n) d = pos (round_half_even n d)
quantize (negsuc n) d = pos 0 -ℤ pos (round_half_even (suc n) d)

-- For a divisor of 10000: the rounded quotient is at most half a unit away from the exact one, and
-- from a tie it is even.
pub round_half_even_nearest :
    (n : ℕ)
    → (2 * n ≤ 2 * (round_half_even n 10_000 * 10_000) + 10_000)
      × (2 * (round_half_even n 10_000 * 10_000) ≤ 2 * n + 10_000)
      × (n % 10_000 ≡ 5000 → round_half_even n 10_000 % 2 ≡ 0)
unfolding round_half_even
round_half_even_nearest n = ground arith

pub round_half_even-le : (n m : ℕ) → n ≤ m * 10_000 → round_half_even n 10_000 ≤ m
unfolding round_half_even
round_half_even-le n m h = ground arith

pub quantize_bounds :
    (n : ℤ) (m : ℕ)
    → pos 0 ≤ℤ n
    → pos_part n ≤ m * 10_000
    → (pos 0 ≤ℤ quantize n 10_000) × (quantize n 10_000 ≤ℤ pos m)
unfolding quantize
quantize_bounds (pos n) m h k = ground (arith, round_half_even-le n m)
quantize_bounds (negsuc n) m h k = absurd (omega arith)

pub quantize-pos : (n d : ℕ) → quantize (pos n) d ≡ pos (round_half_even n d)
unfolding quantize
quantize-pos n d = refl
