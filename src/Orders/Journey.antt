-- ===== src/Orders/Journey.antt =====
-- An order from the cart to its payment: `create_order_from_cart` and then `transition_status`, both
-- of django_app/apps/orders/services.py.
use ecommerce.Prelude.{
  ℕ, ◌≡◌, refl, ap, ◌∙◌, Bool, true, Option, none, String, List, [], ◌∷◌, ◌++◌, arith, All,
}
use ecommerce.Prelude.Int.{pos, ◌-ℤ◌, ◌≤ℤ◌, total, int_laws, eq_of_parts, parts_of_eq}
use ecommerce.Exec.{is_ok}
use ecommerce.Core.Models.{Distinct, lookup, alive}
use ecommerce.Core.Models.Rows.{lookup-append_new, append-Distinct}
use ecommerce.Core.Permissions.{User}
use ecommerce.Inventory.Effects.{reserved_total}
use ecommerce.Inventory.Invariant.{IsValid}
use ecommerce.Inventory.Sequences.{reserved_total_nonneg}
use ecommerce.Cart.{Cart, CartItem}
use ecommerce.Orders.{pending, paid, Order, order_model, OrderItem, order_item_model}
use ecommerce.Orders.Services.{
  CheckoutInput, priced_order, order_items_of, create_order_from_cart, transition_status,
}
use ecommerce.Orders.Demand.{demand, AreNonneg, Changes, Changes-then, portion}
use ecommerce.Orders.Placement.{wanted, Mirrors}
use ecommerce.Orders.Checkout.{ChecksOut, checkout-ChecksOut, cart_items_at, order_with}
use ecommerce.Orders.Effects.{Stands, ordered, transition_status-paid}
use ecommerce.Database.{Db}

-- The rows that mirror a cart are the living items of their order.
order_items_of-mirror :
    (order : ℕ) (items : List CartItem) (rows : List OrderItem)
    → Mirrors order items rows
    → order_items_of order rows ≡ rows
unfolding order_items_of alive
order_items_of-mirror order [] [] m = refl
order_items_of-mirror order [] (r ∷ rows) m = absurd m
order_items_of-mirror order (it ∷ items) [] m = absurd m
order_items_of-mirror order (it ∷ items) (r ∷ rows) m =
    let rest = order_items_of-mirror order items rows m.6 in ground arith

order_items_of-append :
    (order : ℕ) (old rows : List OrderItem)
    → order_items_of order (old ++ rows) ≡ order_items_of order old ++ order_items_of order rows
unfolding order_items_of alive
order_items_of-append order [] rows = refl
order_items_of-append order (r ∷ old) rows = ground (arith, order_items_of-append order old rows)

demand-mirror :
    (v order : ℕ) (items : List CartItem) (rows : List OrderItem)
    → Mirrors order items rows
    → demand v rows ≡ wanted v items
unfolding demand wanted total portion
demand-mirror v order [] [] m = refl
demand-mirror v order [] (r ∷ rows) m = absurd m
demand-mirror v order (it ∷ items) [] m = absurd m
demand-mirror v order (it ∷ items) (r ∷ rows) m =
    let rest = demand-mirror v order items rows m.6 in ground arith

nonneg-mirror :
    (order : ℕ) (items : List CartItem) (rows : List OrderItem)
    → Mirrors order items rows
    → All (λ it. pos 1 ≤ℤ it.quantity) items
    → AreNonneg rows
nonneg-mirror order [] [] m h = tt
nonneg-mirror order [] (r ∷ rows) m h = absurd m
nonneg-mirror order (it ∷ items) [] m h = absurd m
nonneg-mirror order (it ∷ items) (r ∷ rows) m h =
    (omega (int_laws, parts_of_eq m.2, h.0), nonneg-mirror order items rows m.6 h.1)

module _ (iexact : String → String → Bool) (now id : ℕ) (number : String) (cart : Cart)
    (user : Option User) (payload : CheckoutInput) (db : Db) (valid : IsValid db.inventory)
    (distinct : Distinct db.orders) (fresh : lookup id db.orders ≡ none)
    (no_items : order_items_of id db.order_items ≡ [])
    (done : is_ok (create_order_from_cart iexact now id number cart user payload db).0 ≡ true) where
  after : Db
  after = (create_order_from_cart iexact now id number cart user payload db).1

  out : ChecksOut iexact now id number cart user payload db
  out = checkout-ChecksOut iexact now id number cart user payload db valid done

  ordered-after : order_items_of id after.order_items ≡ out.placed.rows
  unfolding after
  ordered-after =
      rw (out.items_added, order_items_of-append, no_items)
        (order_items_of-mirror id _ out.placed.rows out.placed.mirrored)

  new_order : Order
  new_order = order_with iexact now id number cart user payload db out.coupon

  Stands-after : Stands id pending new_order after
  unfolding after new_order priced_order
  Stands-after = record {
    distinct = rw out.order_added (append-Distinct _ db.orders distinct fresh);
    there = rw out.order_added (lookup-append_new _ db.orders fresh);
    lives = refl;
    in_status = refl;
    valid = out.valid;
    nonneg =
        rw ordered-after
          (nonneg-mirror id _ out.placed.rows out.placed.mirrored out.placed.positive);
  }

  wants :
      (v : ℕ)
      → ordered id after v ≡ wanted v (cart_items_at iexact now id number cart user payload db)
  wants v = ap (demand v) ordered-after ∙ demand-mirror v id _ out.placed.rows out.placed.mirrored

  -- Take a checkout that returns, under a key that no order and no order item has yet, over stock in
  -- which reserved units are on hand. The order can then be paid for: that transition succeeds, and
  -- the two calls together leave the reserved units of every variant as they were and take off its
  -- units on hand what the cart asked for.
  pub transition_status-checkout :
      (later : ℕ) (actor : Option ℕ) (message : String)
      → let db' = (create_order_from_cart iexact now id number cart user payload db).1 in
        let r = transition_status later id paid actor message db' in
        (is_ok r.0 ≡ true)
        × Changes
            (λ v. pos 0)
            (λ v. pos 0 -ℤ wanted v (cart_items_at iexact now id number cart user payload db))
            db.inventory
            (r.1).inventory
  unfolding demand reserved_total total order_items_of after
  transition_status-checkout later actor message =
      let pay = transition_status-paid later id actor message new_order after Stands-after (λ v.
        omega (
          int_laws,
          parts_of_eq (wants v),
          parts_of_eq (out.changes.reserved v),
          reserved_total_nonneg v db.inventory valid,
        )) in
      (
        pay.succeeds,
        Changes-then out.changes pay.changes
            (λ v. eq_of_parts _ _ (omega (int_laws, parts_of_eq (wants v))))
            (λ v. eq_of_parts _ _ (omega (int_laws, parts_of_eq (wants v)))),
      )
