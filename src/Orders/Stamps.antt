-- ===== src/Orders/Stamps.antt =====
-- The stamps of an order tell its history: django_app/apps/orders/services.py sets `paid_at`,
-- `cancelled_at` and `refunded_at` along with the status.
use ecommerce.Prelude.{
  ℕ, ◌≡◌, ◌≢◌, refl, inl, inr, true, Option, none, List, [], ◌∷◌, arith, Bool-cases, All,
}
use ecommerce.Exec.{is_ok, Outcome-ok}
use ecommerce.Core.Models.{Distinct}
use ecommerce.Core.Models.Rows.{save-Distinct, save-All, All-lookup}
use ecommerce.Orders.{Status, pending, cancelled, refunded, Order, order_model, can_transition_to}
use ecommerce.Orders.Services.{moved_to}
use ecommerce.Orders.Lifecycle.{transition_status-Outcome, transition_status-failed}
use ecommerce.Orders.History.{Request, serve, serve_all}
use ecommerce.Database.{Db}

-- The stamps `paid_at`, `cancelled_at` and `refunded_at` that go with a status.
abbrev pub HasStamps : Status → Option ℕ → Option ℕ → Option ℕ → Type 0
HasStamps pending p c r = (p ≡ none) × (c ≡ none) × (r ≡ none)
HasStamps cancelled p c r = (c ≢ none) × (r ≡ none)
HasStamps refunded p c r = (p ≢ none) × (c ≡ none) × (r ≢ none)
HasStamps _ p c r = (p ≢ none) × (c ≡ none) × (r ≡ none)

abbrev pub IsStamped : Order → Type 0
IsStamped o = HasStamps o.status o.paid_at o.cancelled_at o.refunded_at

moved_to-stamps :
    (now : ℕ) (s : Status) (new : Status) (o : Order)
    → o.status ≡ s
    → HasStamps s o.paid_at o.cancelled_at o.refunded_at
    → can_transition_to o new ≡ true
    → IsStamped (moved_to now new o)
unfolding can_transition_to
moved_to-stamps now s new o e h allowed = ground arith

serve-stamps :
    (r : Request) (db : Db)
    → Distinct db.orders
    → All IsStamped db.orders
    → Distinct (serve r db).1.orders × All IsStamped (serve r db).1.orders
serve-stamps r db distinct stamped = elim (Bool-cases (is_ok (serve r db).0)) [
  | inl done ↦
      let (o, there, allowed, now_there, others, same) =
        Outcome-ok db _ (serve r db)
          (transition_status-Outcome r.now r.order r.new r.actor r.message db distinct) done in
      let moved = moved_to r.now r.new o in
      let fits : IsStamped moved =
        moved_to-stamps r.now o.status r.new o refl
          (All-lookup IsStamped r.order o db.orders stamped there) allowed in
      rw same
        (save-Distinct moved db.orders distinct, save-All IsStamped moved db.orders fits stamped)
  | inr failed ↦
      rw (transition_status-failed r.now r.order r.new r.actor r.message db failed)
        (distinct, stamped)
]

-- From orders with distinct keys whose stamps fit their statuses, any sequence of transitions keeps
-- both: an order that is paid or further has `paid_at`, a cancelled one `cancelled_at`, a refunded
-- one `paid_at` and `refunded_at`, and an order has no stamp of a status that it cannot have reached.
pub serve_all-IsStamped :
    (requests : List Request) (db : Db)
    → Distinct db.orders
    → All IsStamped db.orders
    → Distinct (serve_all requests db).orders × All IsStamped (serve_all requests db).orders
serve_all-IsStamped [] db distinct stamped = (distinct, stamped)
serve_all-IsStamped (r ∷ requests) db distinct stamped =
    let (d, s) = serve-stamps r db distinct stamped in
    serve_all-IsStamped requests (serve r db).1 d s
