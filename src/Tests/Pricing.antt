-- ===== src/Tests/Pricing.antt =====
-- The theorems on coupons, at concrete inputs.
use ecommerce.Prelude.{
  ℕ, ◌≡◌, ◌↔◌, refl, Bool, true, false, Option, none, some, ◌%◌, ◌*◌, ◌+◌, ◌≤◌, arith,
}
use ecommerce.Prelude.Int.{ℤ, pos, ◌+ℤ◌, ◌≤ℤ◌, int_laws}
use ecommerce.Coupons.{Coupon, percent, is_valid_now, calculate_discount}
use ecommerce.Coupons.Rounding.{round_half_even, round_half_even_nearest}
use ecommerce.Coupons.Discount.{IsSane, calculate_discount_bounds}
use ecommerce.Tests.{tenth_off}

tenth_off-IsSane : IsSane tenth_off
tenth_off-IsSane = record {
  value_nonneg = omega int_laws;
  percent_le_100 = λ e. omega int_laws;
  cap_nonneg = λ cap e. absurd (ground arith);
}

calculate_discount_bounds_example :
    (pos 0 ≤ℤ calculate_discount tenth_off (pos 2505))
    × (calculate_discount tenth_off (pos 2505) ≤ℤ pos 2505)
calculate_discount_bounds_example =
    calculate_discount_bounds tenth_off (pos 2505) tenth_off-IsSane (omega int_laws)

-- Ten percent of 25.05 is 2.50, since 2.505 lies between 2.50 and 2.51 and 250 is even.
calculate_discount_tie : calculate_discount tenth_off (pos 2505) ≡ pos 250
unfolding calculate_discount ecommerce.Coupons.Rounding.quantize ecommerce.Prelude.Int.◌*ℤ◌
calculate_discount_tie = refl

round_half_even_nearest_example :
    (2 * 25_050_000 ≤ 2 * (round_half_even 25_050_000 10_000 * 10_000) + 10_000)
    × (2 * (round_half_even 25_050_000 10_000 * 10_000) ≤ 2 * 25_050_000 + 10_000)
    × (25_050_000 % 10_000 ≡ 5000 → round_half_even 25_050_000 10_000 % 2 ≡ 0)
round_half_even_nearest_example = round_half_even_nearest 25_050_000
