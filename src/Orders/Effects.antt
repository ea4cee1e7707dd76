-- ===== src/Orders/Effects.antt =====
-- Payment, cancellation and refund of an order, and what they do to the stock:
-- `transition_status` of django_app/apps/orders/services.py.
use ecommerce.Prelude.{ℕ, ◌≡◌, refl, ap, ◌∙◌, true, Option, some, String, any}
use ecommerce.Prelude.Int.{ℤ, pos, ◌-ℤ◌, ◌≤ℤ◌, min_ℤ, int_laws, eq_of_parts, parts_of_eq}
use ecommerce.Exec.{Result, ok, is_ok}
use ecommerce.Core.Models.{Distinct, lookup, is_alive}
use ecommerce.Core.Models.Rows.{save-Distinct, pk-lookup, lookup-save_self}
use ecommerce.Inventory.Effects.{reserved_total}
use ecommerce.Inventory.Invariant.{IsValid}
use ecommerce.Orders.{
  Status, pending, paid, cancelled, Order, order_model, status_eq, allowed_transitions,
  can_transition_to,
}
use ecommerce.Orders.Services.{order_items_of, moved_to, transition_status}
use ecommerce.Orders.Lifecycle.{
  effect, transitioned, transition_status-done, id-moved_to, status-moved_to, is_alive-moved_to,
}
use ecommerce.Orders.Demand.{demand, AreNonneg, Changes, Changes-then}
use ecommerce.Orders.Fulfilment.{commit_items-Changes}
use ecommerce.Orders.Release.{release_items-Changes}
use ecommerce.Database.{Db}
use ecommerce.Database.Queries.{get_one-key}

-- A living order with its key, in a status, over stock in which reserved units are on hand.
pub record Stands (order_id : ℕ) (s : Status) (o : Order) (db : Db) : Type 0 where
  pub distinct : Distinct db.orders
  pub there : lookup order_id db.orders ≡ some o
  pub lives : is_alive o ≡ true
  pub in_status : o.status ≡ s
  pub valid : IsValid db.inventory
  pub nonneg : AreNonneg (order_items_of order_id db.order_items)

-- What the living items of the order ask of a variant.
abbrev pub ordered : ℕ → Db → ℕ → ℤ
ordered order_id db v = demand v (order_items_of order_id db.order_items)

module _ (now order_id : ℕ) (new : Status) (actor : Option ℕ) (message : String) (o : Order)
    (db : Db) where
  Stands-moved :
      {s : Status}
      → Stands order_id s o db
      → IsValid (effect now order_id new actor message db o).1
      → Stands order_id new (moved_to now new o) (transitioned now order_id new actor message db o)
  Stands-moved stands valid =
      let moved = moved_to now new o in
      let k : moved.id ≡ order_id =
        id-moved_to now new o ∙ pk-lookup order_id o db.orders stands.there in
      record {
        distinct = save-Distinct moved db.orders stands.distinct;
        there = rw k at (lookup-save_self moved o db.orders (rw k stands.there));
        lives = is_alive-moved_to now new o ∙ stands.lives;
        in_status = status-moved_to now new o;
        valid = valid;
        nonneg = stands.nonneg;
      }

  -- A transition of an order that stands, from the effect on the stock.
  moves_on :
      {s : Status}
      → Stands order_id s o db
      → can_transition_to o new ≡ true
      → is_ok (effect now order_id new actor message db o).0 ≡ true
      → transition_status now order_id new actor message db
        ≡ (ok (moved_to now new o), transitioned now order_id new actor message db o)
  moves_on stands allowed done =
      transition_status-done now order_id new actor message db o
        (get_one-key order_id db.orders o stands.distinct stands.there stands.lives) allowed done

allows :
    (s new : Status) (o : Order)
    → o.status ≡ s
    → any (status_eq new) (allowed_transitions s) ≡ true
    → can_transition_to o new ≡ true
unfolding can_transition_to
allows s new o e h = rw e h

-- A transition from one status to another that succeeds, with its changes of the stock.
pub record Passes (order_id now : ℕ) (new : Status) (o : Order) (db : Db)
    (outcome : Result Order × Db) (reserved_by on_hand_by : ℕ → ℤ) : Type 0 where
  pub succeeds : is_ok outcome.0 ≡ true
  pub stands : Stands order_id new (moved_to now new o) outcome.1
  pub same_items : outcome.1.order_items ≡ db.order_items
  pub changes : Changes reserved_by on_hand_by db.inventory outcome.1.inventory

module _ (now order_id : ℕ) (actor : Option ℕ) (message : String) (o : Order) (db : Db) where
  -- A pending order of which every unit is reserved, over valid stock: paying for it succeeds. Each
  -- variant's reserved units and units on hand fall by what the order's items ask for.
  pub transition_status-paid :
      Stands order_id pending o db
      → ((v : ℕ) → ordered order_id db v ≤ℤ reserved_total v db.inventory)
      → Passes order_id now paid o db
          (transition_status now order_id paid actor message db)
          (λ v. pos 0 -ℤ ordered order_id db v)
          (λ v. pos 0 -ℤ ordered order_id db v)
  transition_status-paid stands enough =
      let k : o.id ≡ order_id = pk-lookup order_id o db.orders stands.there in
      let (done, valid, changes) =
        commit_items-Changes order_id (order_items_of order_id db.order_items) db.inventory
          stands.valid stands.nonneg enough in
      let allowed : can_transition_to o paid ≡ true = allows pending paid o stands.in_status refl in
      rw (moves_on now order_id paid actor message o db stands allowed (rw k (ap is_ok done)))
        (record {
          succeeds = refl;
          stands = Stands-moved now order_id paid actor message o db stands (rw k valid);
          same_items = refl;
          changes = rw k changes;
        })

  -- Cancelling an order, from any status that allows it and over valid stock, succeeds. Each
  -- variant's reserved units fall by what the order's items ask for, or to nothing if fewer are
  -- reserved. The units on hand do not change.
  pub transition_status-cancelled :
      (s : Status)
      → Stands order_id s o db
      → can_transition_to o cancelled ≡ true
      → Passes order_id now cancelled o db
          (transition_status now order_id cancelled actor message db)
          (λ v. pos 0 -ℤ min_ℤ (ordered order_id db v) (reserved_total v db.inventory))
          (λ v. pos 0)
  transition_status-cancelled s stands allowed =
      let k : o.id ≡ order_id = pk-lookup order_id o db.orders stands.there in
      let (done, valid, changes) =
        release_items-Changes order_id (order_items_of order_id db.order_items) db.inventory
          stands.valid stands.nonneg in
      rw (moves_on now order_id cancelled actor message o db stands allowed (rw k (ap is_ok done)))
        (record {
          succeeds = refl;
          stands = Stands-moved now order_id cancelled actor message o db stands (rw k valid);
          same_items = refl;
          changes = rw k changes;
        })

-- An order that is paid for and then cancelled, over valid stock in which every unit of it was
-- reserved: both calls succeed. The sale is not undone, since the units on hand stay lower by what
-- the items ask for; and the cancellation releases units a second time, of those that are reserved
-- for other orders.
pub cancelled-after-paid :
    (now later order_id : ℕ) (actor : Option ℕ) (message : String) (o : Order) (db : Db)
    → Stands order_id pending o db
    → ((v : ℕ) → ordered order_id db v ≤ℤ reserved_total v db.inventory)
    → let (r, db') = transition_status now order_id paid actor message db in
      let (r', db'') = transition_status later order_id cancelled actor message db' in
      (is_ok r ≡ true)
      × (is_ok r' ≡ true)
      × Changes
          (λ v.
            pos 0
            -ℤ ordered order_id db v
            -ℤ min_ℤ
                (ordered order_id db v)
                (reserved_total v db.inventory -ℤ ordered order_id db v))
          (λ v. pos 0 -ℤ ordered order_id db v)
          db.inventory
          db''.inventory
cancelled-after-paid now later order_id actor message o db stands enough =
    let pay = transition_status-paid now order_id actor message o db stands enough in
    let db' = (transition_status now order_id paid actor message db).1 in
    let cancel =
      transition_status-cancelled later order_id actor message (moved_to now paid o) db' paid
        pay.stands (allows paid cancelled (moved_to now paid o) refl refl) in
    let same = λ (v : ℕ). ap (λ t. demand v (order_items_of order_id t)) pay.same_items in
    (
      pay.succeeds,
      cancel.succeeds,
      Changes-then pay.changes cancel.changes
          (λ v.
            eq_of_parts _ _
              (omega (int_laws, parts_of_eq (same v), parts_of_eq (pay.changes.reserved v))))
          (λ v. eq_of_parts _ _ (omega int_laws)),
    )
