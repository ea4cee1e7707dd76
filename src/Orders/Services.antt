-- ===== src/Orders/Services.antt =====
-- django_app/apps/orders/services.py: checkout and the status transitions. The time, the keys of new
-- rows and the order's number, which the code draws at random, are arguments. `iexact` is the
-- database's comparison without regard to case.
use text.Mathlib.Text.{◌==◌ as str_eq}
use ecommerce.Prelude.{
  ℕ, suc, ◌+◌, Bool, true, false, not, Option, none, some, String, List, [], ◌∷◌, ◌++◌, ◌==◌,
  if◌then◌else◌, filter_by, any,
}
use ecommerce.Prelude.Int.{ℤ, pos, ◌+ℤ◌, ◌-ℤ◌, leb_ℤ}
use ecommerce.Exec.{
  Exec, Result, ok, err, does_not_exist, out_of_stock, checkout_error, integrity_error, pure, gets,
  modify, raise_if, ◌>>=◌, ◌>>◌, atomic,
}
use ecommerce.Core.Models.{alive, save, lookup}
use ecommerce.Core.Permissions.{User, signed_in}
use ecommerce.Inventory.{Inventory, reserve_stock, commit_sale, release_reservation}
use ecommerce.Catalog.{variant_model, product_model}
use ecommerce.Coupons.{Coupon, coupon_model, is_valid_now, calculate_discount}
use ecommerce.Cart.{Cart, CartItem, cart_item_model, items_of, subtotal, line_total}
use ecommerce.Cart.Services.{empty_cart}
use ecommerce.Orders.{
  Status, pending, paid, packed, shipped, delivered, cancelled, refunded, Order, order_model,
  OrderItem, order_item_model, OrderEvent, EventCode, can_transition_to,
}
use ecommerce.Database.{Db, get_one, lift, on_inventory}

-- `none` for the billing address is a missing or an empty one.
pub record CheckoutInput : Type 0 where
  pub email : String
  pub phone : String
  pub shipping_address : String
  pub billing_address : Option String
  pub coupon_code : String
  pub shipping_method : String
  pub notes_customer : String

unfoldable pub calculate_shipping : String → ℤ → ℤ
calculate_shipping method subtotal =
    if leb_ℤ (pos 20_000) subtotal
    then pos 0
    else if str_eq method "standard"
    then pos 999
    else if str_eq method "express"
    then pos 1999
    else if str_eq method "pickup"
    then pos 0
    else pos 999

unfoldable pub calculate_tax : ℤ → ℤ
calculate_tax subtotal = pos 0

abbrev pub or_else : Option String → String → String
or_else none d = d
or_else (some s) d = s

-- The coupon that a checkout applies, if any, or why there is none.
abbrev check_coupon : ℕ → Result Coupon → Result (Option Coupon)
check_coupon now (err does_not_exist) = err checkout_error
check_coupon now (err e) = err e
check_coupon now (ok c) = if not (is_valid_now now c) then err checkout_error else ok (some c)

unfoldable pub find_coupon :
    (String → String → Bool) → ℕ → String → List Coupon → Result (Option Coupon)
unfolding get_one
find_coupon iexact now code coupons =
    if str_eq code "" then ok none else check_coupon now (get_one (λ c. iexact c.code code) coupons)

abbrev pub discount_of : Option Coupon → ℤ → ℤ
discount_of none subtotal = pos 0
discount_of (some c) subtotal = calculate_discount c subtotal

abbrev code_of : Option Coupon → String
code_of none = ""
code_of (some c) = c.code

-- The row that `Order.objects.create` inserts, with the amounts computed before it.
unfoldable pub priced_order :
    ℕ → String → Option ℕ → Cart → CheckoutInput → ℤ → Option Coupon → Order
unfolding calculate_shipping calculate_tax
priced_order id number user cart payload subtotal coupon =
    let discount = discount_of coupon subtotal in
    let shipping = calculate_shipping payload.shipping_method (subtotal -ℤ discount) in
    let tax = calculate_tax (subtotal -ℤ discount +ℤ shipping) in
    record {
      id = id;
      number = number;
      user = user;
      email_snapshot = payload.email;
      phone_snapshot = payload.phone;
      status = pending;
      currency = cart.currency;
      subtotal = subtotal;
      shipping_total = shipping;
      tax_total = tax;
      discount_total = discount;
      grand_total = subtotal -ℤ discount +ℤ shipping +ℤ tax;
      coupon_code = code_of coupon;
      shipping_address = payload.shipping_address;
      billing_address = or_else payload.billing_address payload.shipping_address;
      payment_provider = "";
      payment_reference = "";
      paid_at = none;
      cancelled_at = none;
      refunded_at = none;
      notes_customer = payload.notes_customer;
      shipping_method = payload.shipping_method;
      deleted_at = none;
    }

-- `except OutOfStockError`: the other errors pass through.
abbrev pub as_checkout_error : {A S : Type 0} → Result A × S → Result A × S
as_checkout_error (err out_of_stock, s) = (err checkout_error, s)
as_checkout_error (err e, s) = (err e, s)
as_checkout_error (ok a, s) = (ok a, s)

abbrev pub reserve_item : ℕ → CartItem → Exec Inventory (Unit {0})
reserve_item order item =
    (λ inv. as_checkout_error (reserve_stock item.variant item.quantity (some order) inv))
    >> pure tt

-- The item's foreign keys reach their rows, deleted or not.
unfoldable pub snapshot : ℕ → ℕ → CartItem → Db → Result OrderItem
snapshot fresh order item db = elim (lookup item.variant db.variants) [
  | none ↦ err does_not_exist
  | some v ↦ elim (lookup v.product db.products) [
    | none ↦ err does_not_exist
    | some p ↦ ok (record {
      id = fresh;
      order = order;
      variant = some item.variant;
      sku = v.sku;
      name_snapshot = p.name;
      attributes_snapshot = v.attributes_snapshot;
      quantity = item.quantity;
      unit_price = item.unit_price;
      line_total = line_total item;
      deleted_at = none;
    })
  ]
]

-- The loop over the cart's items; the n-th item takes the n-th key after `fresh`.
unfoldable pub place_items : ℕ → ℕ → List CartItem → Exec Db (Unit {0})
unfolding snapshot
place_items fresh order [] = pure tt
place_items fresh order (item ∷ rest) = do
  on_inventory (reserve_item order item)
  row ← lift (snapshot fresh order item)
  modify λ db. record db { order_items = db.order_items ++ row ∷ [] }
  place_items (suc fresh) order rest

abbrev pub use_coupon : Option Coupon → Db → Db
use_coupon none db = db
use_coupon (some c) db = record db {
  coupons = save (record c { used_count = c.used_count + 1 }) db.coupons;
}

abbrev pub event : ℕ → EventCode → String → Option ℕ → OrderEvent
event order code message actor = record {
  order = order;
  code = code;
  message = message;
  actor = actor;
}

abbrev pub log_event : OrderEvent → Db → Db
log_event e db = record db { order_events = db.order_events ++ e ∷ [] }

abbrev pub is_empty : List CartItem → Bool
is_empty [] = true
is_empty (it ∷ rest) = false

module _ (iexact : String → String → Bool) where
  -- What the transaction does, step by step.
  unfoldable pub checkout : ℕ → ℕ → String → Cart → Option User → CheckoutInput → Exec Db Order
  unfolding find_coupon priced_order place_items empty_cart
  checkout now id number cart user payload = do
    items ← gets λ db. items_of cart.id db.cart_items
    raise_if (is_empty items) checkout_error
    total ← gets λ db. subtotal cart.id db.cart_items
    coupon ← lift λ db. find_coupon iexact now payload.coupon_code db.coupons
    let order = priced_order id number (signed_in user) cart payload total coupon
    taken ← gets λ db. any (λ o. str_eq o.number number) db.orders
    raise_if taken integrity_error
    modify λ db. record db { orders = db.orders ++ order ∷ [] }
    place_items (suc id) id items
    modify (use_coupon coupon)
    modify (log_event (event id EventCode.created "Order created" (signed_in user)))
    modify (empty_cart now cart)
    pure order

  unfoldable pub create_order_from_cart :
      ℕ → ℕ → String → Cart → Option User → CheckoutInput → Exec Db Order
  unfolding checkout
  create_order_from_cart now id number cart user payload =
      atomic (checkout now id number cart user payload)

-- The two loops over the items of an order. An item whose variant is gone is passed over.
unfoldable pub commit_items : ℕ → List OrderItem → Exec Inventory (Unit {0})
commit_items order [] = pure tt
commit_items order (item ∷ rest) = elim item.variant [
  | none ↦ commit_items order rest
  | some v ↦ commit_sale v item.quantity (some order) >> commit_items order rest
]

unfoldable pub release_items : ℕ → List OrderItem → Exec Inventory (Unit {0})
release_items order [] = pure tt
release_items order (item ∷ rest) = elim item.variant [
  | none ↦ release_items order rest
  | some v ↦ release_reservation v item.quantity (some order) >> release_items order rest
]

-- `order.items.all()`
unfoldable pub order_items_of : ℕ → List OrderItem → List OrderItem
order_items_of order items = filter_by (λ it. it.order == order) (alive items)

-- The columns that a transition sets.
abbrev pub moved_to : ℕ → Status → Order → Order
moved_to now paid o = record o { status = paid; paid_at = some now }
moved_to now cancelled o = record o { status = cancelled; cancelled_at = some now }
moved_to now refunded o = record o { status = refunded; refunded_at = some now }
moved_to now new o = record o { status = new }

-- The effect of a transition on the stock.
abbrev pub stock_effect : Status → ℕ → List OrderItem → Exec Inventory (Unit {0})
stock_effect paid order items = commit_items order items
stock_effect cancelled order items = release_items order items
stock_effect new order items = pure tt

abbrev pub status_message : Status → String
status_message pending = "Status changed to pending"
status_message paid = "Status changed to paid"
status_message packed = "Status changed to packed"
status_message shipped = "Status changed to shipped"
status_message delivered = "Status changed to delivered"
status_message cancelled = "Status changed to cancelled"
status_message refunded = "Status changed to refunded"

unfoldable pub transition : ℕ → ℕ → Status → Option ℕ → String → Exec Db Order
unfolding get_one can_transition_to commit_items release_items order_items_of
transition now order_id new actor message = do
  order ← lift λ db. get_one (λ o. o.id == order_id) db.orders
  raise_if (not (can_transition_to order new)) checkout_error
  items ← gets λ db. order_items_of order.id db.order_items
  on_inventory (stock_effect new order.id items)
  let order' = moved_to now new order
  modify λ db. record db { orders = save order' db.orders }
  modify (
      log_event (
        event order.id (EventCode.status new)
          (if str_eq message "" then status_message new else message) actor))
  pure order'

unfoldable pub transition_status : ℕ → ℕ → Status → Option ℕ → String → Exec Db Order
unfolding transition
transition_status now order_id new actor message =
    atomic (transition now order_id new actor message)
