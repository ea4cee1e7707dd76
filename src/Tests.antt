-- ===== src/Tests.antt =====
-- Small data for the tests, and the theorems at concrete inputs, by the part that they are about.
mod Stock
mod Selling
mod Paying
mod Pricing
mod Rows
mod Streaming
mod Browsing
mod Accessing
mod Accounts
mod Reporting
mod Requesting
mod Reviewing
use ecommerce.Prelude.{
  ℕ, arith, Bool-cases, inl, inr, ◌==◌, Bool, true, false, Option, none, some, String, refl, List,
  [], ◌∷◌,
}
use ecommerce.Prelude.Int.{ℤ, pos, int_laws, total, ◌≤ℤ◌}
use ecommerce.Core.Models.{alive}
use ecommerce.Core.Permissions.{User}
use ecommerce.Inventory.{Warehouse, Stock as Shelf, Inventory}
use ecommerce.Inventory.Invariant.{IsValid}
use ecommerce.Catalog.{Product, active, ProductVariant}
use ecommerce.Coupons.{Kind, percent, Coupon}
use ecommerce.Cart.{Cart, CartItem}
use ecommerce.Orders.Services.{CheckoutInput}
use ecommerce.Orders.{Order, OrderItem, pending, order_model}
use ecommerce.Orders.Services.{order_items_of}
use ecommerce.Orders.Demand.{demand, portion}
use ecommerce.Orders.Effects.{Stands, ordered}
use ecommerce.Inventory.Effects.{reserved_total}
use ecommerce.Payments.{Payment}
use ecommerce.Payments.Json.{dict, end}
use ecommerce.Database.{Db}

abbrev pub warehouse : Warehouse
warehouse = record { id = 1; code = 1; is_active = true; priority = 1; deleted_at = none }

abbrev pub shirts : Shelf
shirts = record {
  id = 11;
  variant = 7;
  warehouse = 1;
  on_hand = pos 10;
  reserved = pos 2;
  safety_buffer = 0;
  low_stock_threshold = 5;
  deleted_at = none;
}

abbrev pub inventory : Inventory
inventory = record { warehouses = warehouse ∷ []; stocks = shirts ∷ []; movements = [] }

abbrev pub product : Product
product = record {
  id = 3;
  name = "Shirt";
  slug = "shirt";
  brand = none;
  status = active;
  is_featured = false;
  sold_count = 0;
  created_at = 1;
  deleted_at = none;
}

abbrev pub variant : ProductVariant
variant = record {
  id = 7;
  product = 3;
  sku = "SH-M";
  name = "M";
  price = pos 1000;
  compare_at_price = none;
  currency = "USD";
  is_default = true;
  is_active = true;
  attributes_snapshot = "";
  deleted_at = none;
}

abbrev pub cart : Cart
cart = record {
  id = 5;
  user = some 9;
  session_key = "";
  currency = "USD";
  coupon = none;
  deleted_at = none;
}

abbrev pub line : CartItem
line = record {
  id = 51;
  cart = 5;
  variant = 7;
  quantity = pos 3;
  unit_price = pos 1000;
  deleted_at = none;
}

abbrev pub tenth_off : Coupon
tenth_off = record {
  id = 2;
  code = "TENTH";
  kind = percent;
  value = pos 1000;
  min_subtotal = pos 0;
  max_discount = none;
  max_uses = 0;
  used_count = 0;
  per_user_limit = 0;
  starts_at = none;
  ends_at = none;
  is_active = true;
  deleted_at = none;
}

abbrev pub user : User
user = record {
  id = 9;
  email = "a@b.c";
  is_authenticated = true;
  is_staff = false;
  is_superuser = false;
  roles = "customer" ∷ [];
}

abbrev pub payload : CheckoutInput
payload = record {
  email = "a@b.c";
  phone = "";
  shipping_address = "here";
  billing_address = none;
  shipping_method = "standard";
  notes_customer = "";
  coupon_code = "";
}

abbrev pub db : Db
db = record {
  inventory = inventory;
  products = product ∷ [];
  variants = variant ∷ [];
  coupons = tenth_off ∷ [];
  carts = cart ∷ [];
  cart_items = line ∷ [];
  orders = [];
  order_items = [];
  order_events = [];
  payments = [];
}

abbrev pub order : Order
order = record {
  id = 100;
  number = "N-100";
  user = some 9;
  email_snapshot = "a@b.c";
  phone_snapshot = "";
  status = pending;
  currency = "USD";
  subtotal = pos 2000;
  shipping_total = pos 999;
  tax_total = pos 0;
  discount_total = pos 0;
  grand_total = pos 2999;
  coupon_code = "";
  shipping_address = "here";
  billing_address = "here";
  payment_provider = "payme";
  payment_reference = "100";
  paid_at = none;
  cancelled_at = none;
  refunded_at = none;
  notes_customer = "";
  shipping_method = "standard";
  deleted_at = none;
}

abbrev pub order_line : OrderItem
order_line = record {
  id = 101;
  order = 100;
  variant = some 7;
  sku = "SH-M";
  name_snapshot = "Shirt";
  attributes_snapshot = "";
  quantity = pos 2;
  unit_price = pos 1000;
  line_total = pos 2000;
  deleted_at = none;
}

abbrev pub payment : Payment
payment = record {
  id = 200;
  order = 100;
  provider = "payme";
  status = "pending";
  amount = pos 2999;
  currency = "USD";
  provider_reference = "100";
  provider_intent_id = "";
  redirect_url = "";
  raw_request = dict end;
  raw_response = dict end;
  error = dict end;
  created_at = 1;
  deleted_at = none;
}

-- The order and its payment, whose two units are the two that are reserved.
abbrev pub ordered_db : Db
ordered_db = record db {
  orders = order ∷ [];
  order_items = order_line ∷ [];
  payments = payment ∷ [];
}

pub inventory-IsValid : IsValid inventory
unfolding ecommerce.Core.Models.lookup
inventory-IsValid = record {
  distinct = (refl, tt);
  covered = ((omega int_laws, omega int_laws), tt);
}

pub order-Stands : Stands 100 pending order ordered_db
unfolding ecommerce.Core.Models.lookup order_items_of alive
order-Stands = record {
  distinct = (refl, tt);
  there = refl;
  lives = refl;
  in_status = refl;
  valid = inventory-IsValid;
  nonneg = (omega int_laws, tt);
}

pub order_reserved : (v : ℕ) → ordered 100 ordered_db v ≤ℤ reserved_total v inventory
unfolding alive demand reserved_total total order_items_of portion
order_reserved v = elim (Bool-cases (7 == v)) [ inl e ↦ ground arith | inr e ↦ ground arith ]
