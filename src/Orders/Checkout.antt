-- ===== src/Orders/Checkout.antt =====
-- `create_order_from_cart` of django_app/apps/orders/services.py, as one transaction.
use text.Mathlib.Text.{◌==◌ as str_eq}
use ecommerce.Prelude.{
  ℕ, suc, ◌≡◌, ◌≢◌, refl, ap, ◌∙◌, inl, inr, Bool, true, false, Option, none, some, String, List,
  [], ◌∷◌, ◌++◌, arith, any,
}
use ecommerce.Prelude.Int.{pos}
use ecommerce.Exec.{Result, ok, is_ok, atomic-failed}
use ecommerce.Core.Permissions.{User, signed_in}
use ecommerce.Inventory.Invariant.{IsValid}
use ecommerce.Coupons.{Coupon}
use ecommerce.Cart.{Cart, CartItem, cart_item_model, items_of, subtotal}
use ecommerce.Cart.Services.{empty_cart}
use ecommerce.Cart.Emptying.{items_of-empty_cart, items_of-empty_cart_other}
use ecommerce.Orders.{Order, EventCode}
use ecommerce.Orders.Services.{
  CheckoutInput, find_coupon, priced_order, place_items, use_coupon, event, log_event, is_empty,
  checkout, create_order_from_cart,
}
use ecommerce.Orders.Demand.{Changes}
use ecommerce.Orders.Placement.{wanted, Places, place_items-Places}
use ecommerce.Database.{Db}
use ecommerce.Database.Queries.{Result-cases}

use_coupon-keeps :
    (c : Option Coupon) (db : Db)
    → ((use_coupon c db).inventory ≡ db.inventory)
      × ((use_coupon c db).orders ≡ db.orders)
      × ((use_coupon c db).order_items ≡ db.order_items)
      × ((use_coupon c db).cart_items ≡ db.cart_items)
use_coupon-keeps none db = (refl, refl, refl, refl)
use_coupon-keeps (some c) db = (refl, refl, refl, refl)

module _ (iexact : String → String → Bool) (now id : ℕ) (number : String) (cart : Cart)
    (user : Option User) (payload : CheckoutInput) (db : Db) where
  abbrev pub cart_items_at : List CartItem
  cart_items_at = items_of cart.id db.cart_items

  -- The order that is created with a coupon, or without one.
  abbrev pub order_with : Option Coupon → Order
  order_with coupon =
      priced_order id number (signed_in user) cart payload (subtotal cart.id db.cart_items) coupon

  abbrev pub with_order : Option Coupon → Db
  with_order coupon = record db { orders = db.orders ++ order_with coupon ∷ [] }

  abbrev pub placing : Option Coupon → Result (Unit {0}) × Db
  placing coupon = place_items (suc id) id cart_items_at (with_order coupon)

  -- The database after a checkout.
  abbrev pub checked_out : Option Coupon → Db
  checked_out coupon = empty_cart now cart (
      log_event (event id EventCode.created "Order created" (signed_in user))
        (use_coupon coupon (placing coupon).1))

  abbrev call : Result Order × Db
  call = create_order_from_cart iexact now id number cart user payload db

  pub checkout-ok :
      is_ok call.0 ≡ true
      → (is_empty cart_items_at ≡ false)
        × (any (λ o. str_eq o.number number) db.orders ≡ false)
        × ((coupon : Option Coupon) × (find_coupon iexact now payload.coupon_code db.coupons
              ≡ ok coupon)
            × (is_ok (placing coupon).0 ≡ true)
            × (call ≡ (ok (order_with coupon), checked_out coupon)))
  unfolding create_order_from_cart
  checkout-ok h = elim (Result-cases (find_coupon iexact now payload.coupon_code db.coupons)) [
    | inl (coupon, found) ↦ elim (Result-cases (placing coupon).0) [
      | inl (u, placed) ↦
          (ground arith, ground arith, (coupon, found, ap is_ok placed, ground arith))
      | inr (e, failed) ↦ absurd (ground arith)
    ]
    | inr (e, missing) ↦ absurd (ground arith)
  ]

  -- What a checkout that returned has done.
  pub record ChecksOut : Type 0 where
    pub coupon : Option Coupon
    pub coupon_found : find_coupon iexact now payload.coupon_code db.coupons ≡ ok coupon
    pub some_items : is_empty cart_items_at ≡ false
    pub placed : Places id cart_items_at (with_order coupon) (placing coupon).1
    pub result : call ≡ (ok (order_with coupon), checked_out coupon)
    pub changes : Changes (λ v. wanted v cart_items_at) (λ v. pos 0) db.inventory (call.1).inventory
    pub valid : IsValid (call.1).inventory
    pub order_added : (call.1).orders ≡ db.orders ++ order_with coupon ∷ []
    pub items_added : (call.1).order_items ≡ db.order_items ++ placed.rows
    pub emptied : items_of cart.id (call.1).cart_items ≡ []
    pub others_kept :
        (j : ℕ) → j ≢ cart.id → items_of j (call.1).cart_items ≡ items_of j db.cart_items

  -- From stock in which reserved units are on hand, a checkout that returns has found the coupon that
  -- was named, if one was; has added the priced order and one order item for each item of the cart;
  -- has reserved what the cart asks for of each variant and taken nothing off the units on hand; and
  -- has emptied this cart and no other.
  pub checkout-ChecksOut : IsValid db.inventory → is_ok call.0 ≡ true → ChecksOut
  unfolding empty_cart
  checkout-ChecksOut valid h =
      let (some_items, fresh_number, rest) = checkout-ok h in
      let (coupon, found, done, result) = rest in
      let placed = place_items-Places (suc id) id cart_items_at (with_order coupon) valid done in
      let (inv, orders, items, carts) = use_coupon-keeps coupon (placing coupon).1 in
      record {
        coupon = coupon;
        coupon_found = found;
        some_items = some_items;
        placed = placed;
        result = result;
        changes = rw (result, inv) placed.changes;
        valid = rw (result, inv) placed.valid;
        order_added = rw (result, orders) (ap (λ (d : Db). d.orders) placed.written);
        items_added = rw (result, items) (ap (λ (d : Db). d.order_items) placed.written);
        emptied = rw result (
            items_of-empty_cart now cart (
              log_event (event id EventCode.created "Order created" (signed_in user))
                (use_coupon coupon (placing coupon).1)));
        others_kept = λ j ne. rw result (
            items_of-empty_cart_other now cart
              (log_event (event id EventCode.created "Order created" (signed_in user))
                (use_coupon coupon (placing coupon).1))
              j ne
            ∙ ap (items_of j) (carts ∙ ap (λ (d : Db). d.cart_items) placed.written));
      }

  pub checkout-failed : is_ok call.0 ≡ false → call.1 ≡ db
  unfolding create_order_from_cart
  checkout-failed = atomic-failed (checkout iexact now id number cart user payload) db
