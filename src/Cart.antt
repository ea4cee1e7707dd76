-- ===== src/Cart.antt =====
-- django_app/apps/cart/models.py: carts and their items. Money is in cents; a unit price has two
-- places and a quantity is whole, so `quantize` leaves a line's total as it is.
pub mod Services
pub mod Emptying
pub mod Units
pub mod Adding
pub mod Readding
pub mod Owning
pub mod Rounds
pub mod Merging
use ecommerce.Prelude.{ℕ, ◌≡◌, refl, Option, String, List, ◌==◌, filter_by}
use ecommerce.Prelude.Int.{ℤ, ◌*ℤ◌, total}
use ecommerce.Core.Models.{Model, alive}

pub record Cart : Type 0 where
  pub id : ℕ
  pub user : Option ℕ
  pub session_key : String
  pub currency : String
  pub coupon : Option ℕ
  pub deleted_at : Option ℕ

pub record CartItem : Type 0 where
  pub id : ℕ
  pub cart : ℕ
  pub variant : ℕ
  pub quantity : ℤ
  pub unit_price : ℤ
  pub deleted_at : Option ℕ

instance abbrev pub cart_model : Model Cart
cart_model = record {
  pk = λ c. c.id;
  deleted_at = λ c. c.deleted_at;
  set_deleted_at = λ d c. record c { deleted_at = d };
  pk-set = λ d c. refl;
  deleted_at-set = λ d c. refl;
  set-set = λ d e c. refl;
  set_self = λ c. refl;
}

instance abbrev pub cart_item_model : Model CartItem
cart_item_model = record {
  pk = λ i. i.id;
  deleted_at = λ i. i.deleted_at;
  set_deleted_at = λ d i. record i { deleted_at = d };
  pk-set = λ d i. refl;
  deleted_at-set = λ d i. refl;
  set-set = λ d e i. refl;
  set_self = λ i. refl;
}

unfoldable pub line_total : CartItem → ℤ
line_total it = it.unit_price *ℤ it.quantity

-- `cart.items.all()`, over the table of items
unfoldable pub items_of : ℕ → List CartItem → List CartItem
items_of cart items = filter_by (λ it. it.cart == cart) (alive items)

unfoldable pub subtotal : ℕ → List CartItem → ℤ
subtotal cart items = total line_total (items_of cart items)

unfoldable pub total_items : ℕ → List CartItem → ℤ
total_items cart items = total (λ it. it.quantity) (items_of cart items)
