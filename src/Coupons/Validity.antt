-- ===== src/Coupons/Validity.antt =====
-- When `Coupon.is_valid_now` of django_app/apps/coupons/models.py holds.
use ecommerce.Prelude.{ℕ, ◌≤◌, ◌<◌, ◌≡◌, refl, ◌↔◌, ◌⊎◌, true, false, Option, none, some, arith}
use ecommerce.Coupons.{Coupon, before_start, after_end, is_valid_now}

-- The window and the limit, as the fields describe them.
pub record IsRedeemable (now : ℕ) (c : Coupon) : Type 0 where
  pub active : c.is_active ≡ true
  pub started : (t : ℕ) → c.starts_at ≡ some t → t ≤ now
  pub not_ended : (t : ℕ) → c.ends_at ≡ some t → now ≤ t
  pub uses_left : (c.max_uses ≡ 0) ⊎ (c.used_count < c.max_uses)

not_before :
    (now : ℕ) (o : Option ℕ) → ((t : ℕ) → o ≡ some t → t ≤ now) → before_start now o ≡ false
not_before now none h = refl
not_before now (some t) h = let p : t ≤ now = h t refl in ground arith

not_after : (now : ℕ) (o : Option ℕ) → ((t : ℕ) → o ≡ some t → now ≤ t) → after_end now o ≡ false
not_after now none h = refl
not_after now (some t) h = let p : now ≤ t = h t refl in ground arith

passes :
    (now : ℕ) (c : Coupon)
    → c.is_active ≡ true
    → before_start now c.starts_at ≡ false
    → after_end now c.ends_at ≡ false
    → (c.max_uses ≡ 0) ⊎ (c.used_count < c.max_uses)
    → is_valid_now now c ≡ true
unfolding is_valid_now
passes now c a b e u = ground arith

-- A coupon is valid exactly when it is active, has started, has not ended (both ends included), and
-- has no limit of uses or some left.
pub is_valid_now_iff : (now : ℕ) (c : Coupon) → (is_valid_now now c ≡ true) ↔ IsRedeemable now c
unfolding is_valid_now
is_valid_now_iff now c = (
  λ h. record {
    active = ground arith;
    started = λ t e. ground arith;
    not_ended = λ t e. ground arith;
    uses_left = ground arith;
  },
  λ r.
      passes now c r.active (not_before now c.starts_at r.started)
        (not_after now c.ends_at r.not_ended) r.uses_left,
)
