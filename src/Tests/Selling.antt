-- ===== src/Tests/Selling.antt =====
-- The theorems on checkout and on the life of an order, at concrete inputs.
use ecommerce.Prelude.{
  ℕ, ◌≤◌, ◌≡◌, ◌≢◌, refl, Bool, true, false, Option, none, some, String, List, [], ◌∷◌, All,
}
use ecommerce.Prelude.Int.{ℤ, pos, ◌-ℤ◌, ◌+ℤ◌, ◌≤ℤ◌, min_ℤ, int_laws}
use ecommerce.Exec.{is_ok, Outcome}
use ecommerce.Core.Models.{Distinct, lookup}
use ecommerce.Inventory.Effects.{reserved_total}
use ecommerce.Cart.{CartItem}
use ecommerce.Orders.{
  Order, order_model, pending, paid, cancelled, refunded, packed, can_transition_to,
}
use ecommerce.Orders.Services.{
  create_order_from_cart, place_items, moved_to, transition_status, priced_order,
}
use ecommerce.Orders.Demand.{Changes}
use ecommerce.Orders.Placement.{wanted}
use ecommerce.Orders.Checkout.{ChecksOut, checkout-ChecksOut, cart_items_at}
use ecommerce.Orders.Journey.{transition_status-checkout}
use ecommerce.Orders.Lifecycle.{transitioned, transition_status-Outcome}
use ecommerce.Orders.Effects.{ordered, cancelled-after-paid}
use ecommerce.Orders.History.{Request, entries, entries-le-one, serve_all}
use ecommerce.Orders.Stamps.{IsStamped, serve_all-IsStamped}
use ecommerce.Orders.Pricing.{priced_order_totals}
use ecommerce.Tests.{
  inventory-IsValid, cart, user, payload, db, order, ordered_db, order-Stands, order_reserved,
}

abbrev never : String → String → Bool
never a b = false

transition_status-checkout_example :
    let db' = (create_order_from_cart never 50 100 "N-100" cart (some user) payload db).1 in
    let r = transition_status 60 100 paid none "" db' in
    (is_ok r.0 ≡ true)
    × Changes
        (λ v. pos 0)
        (λ v. pos 0 -ℤ wanted v (cart_items_at never 50 100 "N-100" cart (some user) payload db))
        db.inventory
        (r.1).inventory
unfolding lookup ecommerce.Orders.Services.order_items_of ecommerce.Core.Models.alive
    create_order_from_cart ecommerce.Cart.items_of ecommerce.Inventory.reserve_stock
    ecommerce.Inventory.reservable ecommerce.Core.Models.Sorting.order_by min_ℤ
    ecommerce.Inventory.available ecommerce.Prelude.Int.max_ℤ ◌-ℤ◌
transition_status-checkout_example =
    transition_status-checkout never 50 100 "N-100" cart (some user) payload db inventory-IsValid tt
      refl refl refl 60 none ""

checkout-ChecksOut_example : ChecksOut never 50 100 "N-100" cart (some user) payload db
unfolding create_order_from_cart ecommerce.Cart.items_of ecommerce.Core.Models.alive
    ecommerce.Inventory.reserve_stock ecommerce.Inventory.reservable
    ecommerce.Core.Models.Sorting.order_by lookup min_ℤ ecommerce.Inventory.available
    ecommerce.Prelude.Int.max_ℤ ◌-ℤ◌
checkout-ChecksOut_example =
    checkout-ChecksOut never 50 100 "N-100" cart (some user) payload db inventory-IsValid refl

transition_status-Outcome_example :
    Outcome ordered_db
      (λ db'.
        (o : Order) × (lookup 100 ordered_db.orders ≡ some o)
        × (can_transition_to o paid ≡ true)
        × (lookup 100 db'.orders ≡ some (moved_to 60 paid o))
        × ((j : ℕ) → j ≢ 100 → lookup j db'.orders ≡ lookup j ordered_db.orders)
        × (db' ≡ transitioned 60 100 paid none "" ordered_db o))
      (transition_status 60 100 paid none "" ordered_db)
unfolding lookup
transition_status-Outcome_example =
    transition_status-Outcome 60 100 paid none "" ordered_db (refl, tt)

cancelled-after-paid_example :
    let (r, db') = transition_status 60 100 paid none "" ordered_db in
    let (r', db'') = transition_status 70 100 cancelled none "" db' in
    (is_ok r ≡ true)
    × (is_ok r' ≡ true)
    × Changes
        (λ v.
          pos 0
          -ℤ ordered 100 ordered_db v
          -ℤ min_ℤ
              (ordered 100 ordered_db v)
              (reserved_total v ordered_db.inventory -ℤ ordered 100 ordered_db v))
        (λ v. pos 0 -ℤ ordered 100 ordered_db v)
        ordered_db.inventory
        db''.inventory
cancelled-after-paid_example =
    cancelled-after-paid 60 70 100 none "" order ordered_db order-Stands order_reserved

abbrev requests : List Request
requests =
    record { now = 60; order = 100; new = paid; actor = none; message = "" }
    ∷ record { now = 61; order = 100; new = paid; actor = none; message = "" }
    ∷ record { now = 62; order = 100; new = packed; actor = none; message = "" }
    ∷ []

entries-le-one_example : entries 100 paid requests ordered_db ≤ 1
unfolding lookup
entries-le-one_example = entries-le-one 100 paid requests ordered_db (refl, tt)

serve_all-IsStamped_example :
    Distinct (serve_all requests ordered_db).orders
    × All IsStamped (serve_all requests ordered_db).orders
unfolding lookup
serve_all-IsStamped_example =
    serve_all-IsStamped requests ordered_db (refl, tt) ((refl, refl, refl), tt)

priced_order_totals_example :
    let o = priced_order 100 "N-100" (some 9) cart payload (pos 25_000) none in
    (o.grand_total ≡ o.subtotal +ℤ o.shipping_total +ℤ o.tax_total -ℤ o.discount_total)
    × (pos 0 ≤ℤ o.discount_total)
    × (o.discount_total ≤ℤ o.subtotal)
    × (o.shipping_total ≤ℤ o.grand_total)
    × (o.grand_total ≤ℤ o.subtotal +ℤ pos 1999)
    × (pos 20_000 +ℤ o.discount_total ≤ℤ o.subtotal → o.shipping_total ≡ pos 0)
priced_order_totals_example =
    priced_order_totals 100 "N-100" (some 9) cart payload (pos 25_000) none tt (omega int_laws)
