-- ===== src/Orders/Lifecycle.antt =====
-- What a call of `transition_status` in django_app/apps/orders/services.py does on each branch.
use text.Mathlib.Text.{◌==◌ as str_eq}
use ecommerce.Prelude.{
  ℕ, ◌≡◌, ◌≢◌, refl, sym, ◌∙◌, inl, inr, true, false, ◌&&◌, Option, some, String, [], ◌∷◌, ◌++◌,
  arith, ◌==◌, if◌then◌else◌,
}
use ecommerce.Exec.{Result, ok, is_ok, Outcome, Outcome-intro, atomic-failed}
use ecommerce.Core.Models.{Distinct, lookup, save, is_alive}
use ecommerce.Core.Models.Rows.{lookup-save_self, lookup-save_ne}
use ecommerce.Inventory.{Inventory}
use ecommerce.Orders.{
  Status, paid, cancelled, refunded, Order, order_model, order_item_model, EventCode,
  can_transition_to,
}
use ecommerce.Orders.Services.{
  order_items_of, moved_to, stock_effect, status_message, event, transition, transition_status,
}
use ecommerce.Database.{Db, get_one}
use ecommerce.Database.Queries.{Result-cases, get_one-ok}

pub id-moved_to : (now : ℕ) (new : Status) (o : Order) → (moved_to now new o).id ≡ o.id
id-moved_to now paid o = refl
id-moved_to now cancelled o = refl
id-moved_to now refunded o = refl
id-moved_to now _ o = refl

pub status-moved_to : (now : ℕ) (new : Status) (o : Order) → (moved_to now new o).status ≡ new
status-moved_to now paid o = refl
status-moved_to now cancelled o = refl
status-moved_to now refunded o = refl
status-moved_to now _ o = refl

module _ (now order_id : ℕ) (new : Status) (actor : Option ℕ) (message : String) (db : Db) where
  abbrev pub effect : Order → Result (Unit {0}) × Inventory
  effect o = stock_effect new o.id (order_items_of o.id db.order_items) db.inventory

  -- The database after a transition of the order `o`.
  abbrev pub transitioned : Order → Db
  transitioned o = record db {
    inventory = (effect o).1;
    orders = save (moved_to now new o) db.orders;
    order_events =
        db.order_events
        ++ event o.id (EventCode.status new)
            (if str_eq message "" then status_message new else message) actor
          ∷ [];
  }

  pub transition_status-ok :
      is_ok (transition_status now order_id new actor message db).0 ≡ true
      → (o : Order) × (get_one (λ o. o.id == order_id) db.orders ≡ ok o)
        × (can_transition_to o new ≡ true)
        × (is_ok (effect o).0 ≡ true)
        × (transition_status now order_id new actor message db
            ≡ (ok (moved_to now new o), transitioned o))
  unfolding transition_status
  transition_status-ok h = elim (Result-cases (get_one (λ o. o.id == order_id) db.orders)) [
    | inl (o, found) ↦ (o, found, ground arith, ground arith, ground arith)
    | inr (e, missing) ↦ absurd (ground arith)
  ]

  pub transition_status-done :
      (o : Order)
      → get_one (λ o. o.id == order_id) db.orders ≡ ok o
      → can_transition_to o new ≡ true
      → is_ok (effect o).0 ≡ true
      → transition_status now order_id new actor message db
        ≡ (ok (moved_to now new o), transitioned o)
  unfolding transition_status
  transition_status-done o found allowed done = ground arith

  -- For an order that is found: the transition succeeds exactly when the table of transitions allows
  -- it and the stock's part, if there is one, succeeds.
  pub is_ok-transition_status :
      (o : Order)
      → get_one (λ o. o.id == order_id) db.orders ≡ ok o
      → is_ok (transition_status now order_id new actor message db).0
        ≡ (can_transition_to o new && is_ok (effect o).0)
  unfolding transition_status
  is_ok-transition_status o found = ground arith

  pub transition_status-failed :
      is_ok (transition_status now order_id new actor message db).0 ≡ false
      → (transition_status now order_id new actor message db).1 ≡ db
  unfolding transition_status
  transition_status-failed = atomic-failed (transition now order_id new actor message) db

  -- Where no order's key is used twice: a transition that succeeds was allowed from the status of a
  -- living order with that key. That order gets the new status and its stamp, no other order
  -- changes, one event is added, and no table but the stock's, the orders' and the events' is touched.
  -- A transition that fails changes nothing.
  pub transition_status-Outcome :
      Distinct db.orders
      → Outcome db
          (λ db'.
            (o : Order) × (lookup order_id db.orders ≡ some o)
            × (can_transition_to o new ≡ true)
            × (lookup order_id db'.orders ≡ some (moved_to now new o))
            × ((j : ℕ) → j ≢ order_id → lookup j db'.orders ≡ lookup j db.orders)
            × (db' ≡ transitioned o))
          (transition_status now order_id new actor message db)
  transition_status-Outcome distinct =
      Outcome-intro db _ (transition_status now order_id new actor message db)
        (λ h.
          let (o, found, allowed, done, result) = transition_status-ok h in
          let (stored, lives, key) =
            get_one-ok (λ o. o.id == order_id) db.orders o distinct found in
          let k : o.id ≡ order_id = ground arith in
          let k' : (moved_to now new o).id ≡ order_id = id-moved_to now new o ∙ k in
          let there : lookup order_id db.orders ≡ some o = rw k at stored in
          rw result (
            o,
            there,
            allowed,
            rw k' at (lookup-save_self (moved_to now new o) o db.orders (rw k' there)),
            λ j ne. lookup-save_ne j (moved_to now new o) db.orders (λ e. ne (sym e ∙ k')),
            refl,
          ))
        transition_status-failed

pub is_alive-moved_to :
    (now : ℕ) (new : Status) (o : Order) → is_alive (moved_to now new o) ≡ is_alive o
is_alive-moved_to now paid o = refl
is_alive-moved_to now cancelled o = refl
is_alive-moved_to now refunded o = refl
is_alive-moved_to now _ o = refl
