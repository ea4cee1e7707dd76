-- ===== src/Coupons/Discount.antt =====
-- Bounds on `Coupon.calculate_discount` of django_app/apps/coupons/models.py.
use ecommerce.Prelude.{
  ℕ, ◌*◌, ◌≤◌, ◌≡◌, refl, inl, inr, false, Option, none, some, arith, Bool-cases,
}
use ecommerce.Prelude.Int.{ℤ, pos, negsuc, ◌+ℤ◌, ◌*ℤ◌, ◌≤ℤ◌, ltb_ℤ, min_ℤ, int_laws}
use ecommerce.Coupons.{
  Kind, percent, fixed, free_shipping, Coupon, discount_of_kind, capped, calculate_discount,
}
use ecommerce.Coupons.Rounding.{quantize, quantize_bounds, quantize-pos, round_half_even_nearest}

-- What the help texts of the fields ask for: a percentage of 0 to 100, amounts of 0 or more.
pub record IsSane (c : Coupon) : Type 0 where
  pub value_nonneg : pos 0 ≤ℤ c.value
  pub percent_le_100 : c.kind ≡ percent → c.value ≤ℤ pos 10_000
  pub cap_nonneg : (cap : ℤ) → c.max_discount ≡ some cap → pos 0 ≤ℤ cap

capped_bounds :
    (cap : Option ℤ) (disc top : ℤ)
    → ((x : ℤ) → cap ≡ some x → pos 0 ≤ℤ x)
    → pos 0 ≤ℤ disc
    → disc ≤ℤ top
    → (pos 0 ≤ℤ capped cap disc) × (capped cap disc ≤ℤ top)
unfolding min_ℤ
capped_bounds none disc top h k l = (k, l)
capped_bounds (some x) disc top h k l = ground (arith, h x refl)

pos-*ℤ-pos : (n v : ℕ) → pos n *ℤ pos v ≡ pos (n * v)
unfolding ◌*ℤ◌
pos-*ℤ-pos n v = ground arith

percent_of_bounds :
    (s v : ℤ)
    → pos 0 ≤ℤ s
    → pos 0 ≤ℤ v
    → v ≤ℤ pos 10_000
    → (pos 0 ≤ℤ quantize (s *ℤ v) 10_000) × (quantize (s *ℤ v) 10_000 ≤ℤ s)
percent_of_bounds (pos n) (pos v) h k l =
    let p : n * v ≤ n * 10_000 = grind arith in
    rw (pos-*ℤ-pos n v) (quantize_bounds (pos (n * v)) n (omega arith) p)
percent_of_bounds (pos n) (negsuc v) h k l = absurd (omega arith)
percent_of_bounds (negsuc n) v h k l = absurd (omega arith)

-- Of a coupon whose value is in the documented range and whose cap, if it has one, is not negative,
-- and of a subtotal that is not negative: the discount is at least nothing and at most the subtotal,
-- whatever the coupon's kind and threshold.
pub calculate_discount_bounds :
    (c : Coupon) (subtotal : ℤ)
    → IsSane c
    → pos 0 ≤ℤ subtotal
    → (pos 0 ≤ℤ calculate_discount c subtotal) × (calculate_discount c subtotal ≤ℤ subtotal)
unfolding calculate_discount
calculate_discount_bounds c subtotal sane h = elim (Bool-cases (ltb_ℤ subtotal c.min_subtotal)) [
  | inl e ↦ rw e (omega arith)
  | inr e ↦ rw e (by_kind c.kind refl)
]
  where
    by_kind :
        (k : Kind)
        → c.kind ≡ k
        → (pos 0 ≤ℤ discount_of_kind c k subtotal) × (discount_of_kind c k subtotal ≤ℤ subtotal)
    by_kind percent e =
        let p = percent_of_bounds subtotal c.value h sane.value_nonneg (sane.percent_le_100 e) in
        capped_bounds c.max_discount _ subtotal sane.cap_nonneg p.0 p.1
    by_kind fixed e = omega (int_laws, sane.value_nonneg)
    by_kind free_shipping e = omega arith

-- A percentage above 100 is not refused: with no cap and from a subtotal of 50.01 on, which reaches
-- the threshold, such a coupon takes off more than the subtotal.
pub calculate_discount_exceeds :
    (c : Coupon) (n v : ℕ)
    → c.kind ≡ percent
    → c.max_discount ≡ none
    → c.value ≡ pos v
    → 10_001 ≤ v
    → 5001 ≤ n
    → c.min_subtotal ≤ℤ pos n
    → pos 1 +ℤ pos n ≤ℤ calculate_discount c (pos n)
unfolding calculate_discount
calculate_discount_exceeds c n v is_percent no_cap value big enough reached =
    let q = round_half_even_nearest (n * v) in
    let p : n * 10_001 ≤ n * v = grind arith in
    rw (not_below, is_percent, no_cap, value, pos-*ℤ-pos n v, quantize-pos) (omega (int_laws, q, p))
  where
    not_below : ltb_ℤ (pos n) c.min_subtotal ≡ false
    not_below = ground arith
