-- ===== src/Orders.antt =====
-- django_app/apps/orders/models.py: orders, their items, their events and the status machine. Money
-- is in cents, addresses and other JSON values are opaque text, times are numbers.
pub mod Services
pub mod Lifecycle
pub mod History
pub mod Stamps
pub mod Demand
pub mod Fulfilment
pub mod Release
pub mod Effects
pub mod Pricing
pub mod Placement
pub mod Checkout
pub mod Journey
use ecommerce.Prelude.{ℕ, ◌≡◌, refl, Bool, true, false, Option, String, List, [], ◌∷◌, any}
use ecommerce.Prelude.Int.{ℤ}
use ecommerce.Core.Models.{Model}

pub data Status : Type 0 where
  pending paid packed shipped delivered cancelled refunded : Status

abbrev pub status_eq : Status → Status → Bool
status_eq pending pending = true
status_eq paid paid = true
status_eq packed packed = true
status_eq shipped shipped = true
status_eq delivered delivered = true
status_eq cancelled cancelled = true
status_eq refunded refunded = true
status_eq _ _ = false

abbrev pub allowed_transitions : Status → List Status
allowed_transitions pending = paid ∷ cancelled ∷ []
allowed_transitions paid = packed ∷ cancelled ∷ refunded ∷ []
allowed_transitions packed = shipped ∷ cancelled ∷ refunded ∷ []
allowed_transitions shipped = delivered ∷ refunded ∷ []
allowed_transitions delivered = refunded ∷ []
allowed_transitions cancelled = []
allowed_transitions refunded = []

pub record Order : Type 0 where
  pub id : ℕ
  pub number : String
  pub user : Option ℕ
  pub email_snapshot : String
  pub phone_snapshot : String
  pub status : Status
  pub currency : String
  pub subtotal : ℤ
  pub shipping_total : ℤ
  pub tax_total : ℤ
  pub discount_total : ℤ
  pub grand_total : ℤ
  pub coupon_code : String
  pub shipping_address : String
  pub billing_address : String
  pub payment_provider : String
  pub payment_reference : String
  pub paid_at : Option ℕ
  pub cancelled_at : Option ℕ
  pub refunded_at : Option ℕ
  pub notes_customer : String
  pub shipping_method : String
  pub deleted_at : Option ℕ

pub record OrderItem : Type 0 where
  pub id : ℕ
  pub order : ℕ
  pub variant : Option ℕ
  pub sku : String
  pub name_snapshot : String
  pub attributes_snapshot : String
  pub quantity : ℤ
  pub unit_price : ℤ
  pub line_total : ℤ
  pub deleted_at : Option ℕ

-- The codes of events: "created", "status:…" and "webhook:…".
pub data EventCode : Type 0 where
  created : EventCode
  status : Status → EventCode
  webhook : String → EventCode

pub record OrderEvent : Type 0 where
  pub order : ℕ
  pub code : EventCode
  pub message : String
  pub actor : Option ℕ

instance abbrev pub order_model : Model Order
order_model = record {
  pk = λ o. o.id;
  deleted_at = λ o. o.deleted_at;
  set_deleted_at = λ d o. record o { deleted_at = d };
  pk-set = λ d o. refl;
  deleted_at-set = λ d o. refl;
  set-set = λ d e o. refl;
  set_self = λ o. refl;
}

instance abbrev pub order_item_model : Model OrderItem
order_item_model = record {
  pk = λ i. i.id;
  deleted_at = λ i. i.deleted_at;
  set_deleted_at = λ d i. record i { deleted_at = d };
  pk-set = λ d i. refl;
  deleted_at-set = λ d i. refl;
  set-set = λ d e i. refl;
  set_self = λ i. refl;
}

unfoldable pub can_transition_to : Order → Status → Bool
can_transition_to order new = any (status_eq new) (allowed_transitions order.status)
