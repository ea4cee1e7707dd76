-- ===== src/Coupons.antt =====
-- django_app/apps/coupons/models.py: coupons, when they are valid and what they take off. Money is
-- in cents and a percentage in hundredths of a percent. Times are numbers.
pub mod Rounding
pub mod Discount
pub mod Validity
use ecommerce.Prelude.{
  ℕ, zero, ◌≡◌, refl, Bool, true, false, not, ◌&&◌, Option, none, some, String, ltb, leb, ◌==◌,
  if◌then◌else◌,
}
use ecommerce.Prelude.Int.{ℤ, pos, ◌*ℤ◌, ltb_ℤ, leb_ℤ, min_ℤ}
use ecommerce.Core.Models.{Model}
use ecommerce.Coupons.Rounding.{quantize}

pub data Kind : Type 0 where
  percent fixed free_shipping : Kind

pub record Coupon : Type 0 where
  pub id : ℕ
  pub code : String
  pub kind : Kind
  pub value : ℤ
  pub min_subtotal : ℤ
  pub max_discount : Option ℤ
  pub max_uses : ℕ
  pub used_count : ℕ
  pub per_user_limit : ℕ
  pub starts_at : Option ℕ
  pub ends_at : Option ℕ
  pub is_active : Bool
  pub deleted_at : Option ℕ

instance abbrev pub coupon_model : Model Coupon
coupon_model = record {
  pk = λ c. c.id;
  deleted_at = λ c. c.deleted_at;
  set_deleted_at = λ d c. record c { deleted_at = d };
  pk-set = λ d c. refl;
  deleted_at-set = λ d c. refl;
  set-set = λ d e c. refl;
  set_self = λ c. refl;
}

abbrev before_start : ℕ → Option ℕ → Bool
before_start now none = false
before_start now (some t) = ltb now t

abbrev after_end : ℕ → Option ℕ → Bool
after_end now none = false
after_end now (some t) = ltb t now

unfoldable pub is_valid_now : ℕ → Coupon → Bool
is_valid_now now c =
    if not c.is_active
    then false
    else if before_start now c.starts_at
    then false
    else if after_end now c.ends_at
    then false
    else if not (c.max_uses == 0) && leb c.max_uses c.used_count
    then false
    else true

-- `if self.max_discount`: a cap of zero counts as no cap.
abbrev capped : Option ℤ → ℤ → ℤ
capped none disc = disc
capped (some cap) disc = if leb_ℤ cap (pos 0) && leb_ℤ (pos 0) cap then disc else min_ℤ disc cap

abbrev discount_of_kind : Coupon → Kind → ℤ → ℤ
discount_of_kind c percent subtotal = capped c.max_discount (quantize (subtotal *ℤ c.value) 10_000)
discount_of_kind c fixed subtotal = min_ℤ c.value subtotal
discount_of_kind c free_shipping subtotal = pos 0

unfoldable pub calculate_discount : Coupon → ℤ → ℤ
calculate_discount c subtotal =
    if ltb_ℤ subtotal c.min_subtotal then pos 0 else discount_of_kind c c.kind subtotal
