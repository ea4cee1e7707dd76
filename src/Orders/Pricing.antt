-- ===== src/Orders/Pricing.antt =====
-- The amounts of a new order: `_calculate_shipping`, `_calculate_tax` and the arithmetic of
-- `create_order_from_cart` in django_app/apps/orders/services.py.
use ecommerce.Prelude.{ℕ, ◌≡◌, Option, none, some, String, arith}
use ecommerce.Prelude.Int.{ℤ, pos, ◌+ℤ◌, ◌-ℤ◌, ◌≤ℤ◌, int_laws, eq_of_parts}
use ecommerce.Coupons.{Coupon}
use ecommerce.Coupons.Discount.{IsSane, calculate_discount_bounds}
use ecommerce.Cart.{Cart}
use ecommerce.Orders.Services.{
  CheckoutInput, calculate_shipping, calculate_tax, discount_of, priced_order,
}

-- Shipping is free from 200.00 on, and for a pickup; else it is 9.99, or 19.99 if express.
shipping_bounds :
    (method : String) (s : ℤ)
    → (pos 0 ≤ℤ calculate_shipping method s)
      × (calculate_shipping method s ≤ℤ pos 1999)
      × (pos 20_000 ≤ℤ s → calculate_shipping method s ≡ pos 0)
unfolding calculate_shipping
shipping_bounds method s = ground arith

-- A coupon that is given has values in the documented range.
abbrev pub IsSaneOption : Option Coupon → Type 0
IsSaneOption none = Unit
IsSaneOption (some c) = IsSane c

discount_bounds :
    (coupon : Option Coupon) (s : ℤ)
    → IsSaneOption coupon
    → pos 0 ≤ℤ s
    → (pos 0 ≤ℤ discount_of coupon s) × (discount_of coupon s ≤ℤ s)
discount_bounds none s h k = omega arith
discount_bounds (some c) s h k = calculate_discount_bounds c s h k

-- The totals of a new order, for a subtotal that is not negative and a coupon, if any, whose values
-- are in the documented range: subtotal + shipping + tax - discount is the grand total; the discount
-- is at most the subtotal; the grand total is at least the shipping and at most 19.99 more than the
-- subtotal; and shipping costs nothing when 200.00 is left after the discount.
pub priced_order_totals :
    (id : ℕ) (number : String) (user : Option ℕ) (cart : Cart) (payload : CheckoutInput) (total : ℤ)
    (coupon : Option Coupon)
    → IsSaneOption coupon
    → pos 0 ≤ℤ total
    → let o = priced_order id number user cart payload total coupon in
      (o.grand_total ≡ o.subtotal +ℤ o.shipping_total +ℤ o.tax_total -ℤ o.discount_total)
      × (pos 0 ≤ℤ o.discount_total)
      × (o.discount_total ≤ℤ o.subtotal)
      × (o.shipping_total ≤ℤ o.grand_total)
      × (o.grand_total ≤ℤ o.subtotal +ℤ pos 1999)
      × (pos 20_000 +ℤ o.discount_total ≤ℤ o.subtotal → o.shipping_total ≡ pos 0)
unfolding priced_order calculate_tax
priced_order_totals id number user cart payload total coupon sane nonneg =
    let d = discount_of coupon total in
    let (d0, d1) = discount_bounds coupon total sane nonneg in
    let (s0, s1, free) = shipping_bounds payload.shipping_method (total -ℤ d) in
    (
      eq_of_parts _ _ (omega int_laws),
      d0,
      d1,
      omega (int_laws, d1),
      omega (int_laws, d0, s1),
      λ h. free (omega int_laws),
    )
