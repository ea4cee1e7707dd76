-- ===== src/Payments/Webhooks.antt =====
-- `handle_webhook` of django_app/apps/payments/services.py, for webhooks that report a payment, and
-- what it leaves of the stock, the order and the order's payments.
use ecommerce.Prelude.{
  ℕ, ◌≡◌, refl, ap, ◌∙◌, inl, inr, true, false, Option, none, some, String, List, [], ◌∷◌, ◌==◌,
  arith, Bool-cases,
}
use ecommerce.Prelude.Int.{pos, ◌-ℤ◌, ◌≤ℤ◌}
use ecommerce.Exec.{Result, ok, is_ok, atomic}
use ecommerce.Core.Models.{update_where, Distinct, lookup, is_alive}
use ecommerce.Core.Models.Rows.{pk-lookup}
use ecommerce.Inventory.Effects.{reserved_total}
use ecommerce.Orders.{Status, pending, paid, Order, order_model, EventCode, can_transition_to}
use ecommerce.Orders.Services.{event, log_event, moved_to, transition_status}
use ecommerce.Orders.Lifecycle.{
  is_ok-transition_status, transition_status-ok, transition_status-failed,
}
use ecommerce.Orders.Demand.{Changes}
use ecommerce.Orders.Effects.{Stands, ordered, transition_status-paid}
use ecommerce.Payments.{Payment, payment_model}
use ecommerce.Payments.Providers.{key, WebhookResult, Provider, Registry, get_provider}
use ecommerce.Payments.Services.{
  matched, matched_order, order_by_key, act_on, apply_event, answer, report, is_payment_of,
  as_reported, webhook, handle_webhook,
}
use ecommerce.Database.{Db, get_one}
use ecommerce.Database.Queries.{get_one-key}

-- Updating the same rows in the same way again changes nothing.
pub update_where-reported :
    (order : ℕ) (code : String) (parsed : WebhookResult) (t : List Payment)
    → update_where
        (is_payment_of order code)
        (as_reported parsed)
        (update_where (is_payment_of order code) (as_reported parsed) t)
      ≡ update_where (is_payment_of order code) (as_reported parsed) t
unfolding update_where
update_where-reported order code parsed [] = refl
update_where-reported order code parsed (p ∷ t) =
    let rest = update_where-reported order code parsed t in ground arith

transition_status-payments :
    (now k : ℕ) (new : Status) (actor : Option ℕ) (message : String) (db : Db)
    → (transition_status now k new actor message db).1.payments ≡ db.payments
transition_status-payments now k new actor message db =
    elim (Bool-cases (is_ok (transition_status now k new actor message db).0)) [
      | inl h ↦
          let (o, found, allowed, done, result) =
            transition_status-ok now k new actor message db h in
          ap (λ p. p.1.payments) result
      | inr h ↦ ap (λ (d : Db). d.payments) (transition_status-failed now k new actor message db h)
    ]

-- A webhook that a known provider accepts and that names the order `o` by its key.
pub record Reports {Request : Type 0} (registry : Registry Request) (code : String)
    (request : Request) (parsed : WebhookResult) (k : ℕ) (o : Order) (db : Db) : Type 0 where
  pub provider : Provider Request
  pub registered : get_provider registry code ≡ some provider
  pub parses : provider.parse_webhook request ≡ parsed
  pub accepted : parsed.accepted ≡ true
  pub by_key : parsed.order_id ≡ key k
  pub distinct : Distinct db.orders
  pub there : lookup k db.orders ≡ some o
  pub lives : is_alive o ≡ true

module _ {Request : Type 0} (registry : Registry Request) (now : ℕ) (code : String)
    (request : Request) (parsed : WebhookResult) (k : ℕ) (o : Order) where
  abbrev pub logged : Db → Db
  logged db =
      log_event (event o.id (EventCode.webhook parsed.event_type) "payment provider webhook" none)
        db

  finds :
      (db : Db)
      → Reports registry code request parsed k o db
      → matched_order parsed db ≡ ok (some o)
  unfolding matched_order order_by_key
  finds db r =
      let found : get_one (λ o. o.id == k) db.orders ≡ ok o =
        get_one-key k db.orders o r.distinct r.there r.lives in
      let e = r.by_key in ground arith

  pub answers :
      (db : Db)
      → Reports registry code request parsed k o db
      → answer now code parsed db ≡ apply_event now code parsed (some o) db
  unfolding answer
  answers db r = let f = finds db r in let a = r.accepted in ground arith

  pub handles :
      (db : Db)
      → Reports registry code request parsed k o db
      → handle_webhook registry now code request db ≡ atomic (answer now code parsed) db
  unfolding handle_webhook webhook
  handles db r = rw r.registered (rw r.parses refl)

  pub answered :
      (db : Db)
      → Reports registry code request parsed k o db
      → is_ok (act_on now parsed.new_status o (logged db)).0 ≡ true
      → handle_webhook registry now code request db ≡ (
        ok (matched o.number),
        report code parsed o.id (act_on now parsed.new_status o (logged db)).1,
      )
  unfolding apply_event
  answered db r h = let a = answers db r in handles db r ∙ ground arith

  pub act_on-captured :
      (db : Db)
      → parsed.new_status ≡ "captured"
      → act_on now parsed.new_status o db
        ≡ (ok tt, (transition_status now o.id paid none "paid via webhook" db).1)
  unfolding act_on
  act_on-captured db e = rw e refl

  abbrev pub paying : Db → Result Order × Db
  paying db = transition_status now k paid none "paid via webhook" (logged db)

  -- A captured payment: whether the order becomes paid or not, the webhook is answered.
  pub reported :
      (db : Db)
      → Reports registry code request parsed k o db
      → parsed.new_status ≡ "captured"
      → handle_webhook registry now code request db
        ≡ (ok (matched o.number), report code parsed k (paying db).1)
  reported db r e =
      let i : o.id ≡ k = pk-lookup k o db.orders r.there in
      let act = act_on-captured (logged db) e in
      answered db r (ap (λ p. is_ok p.0) act)
      ∙ ap (λ p. (ok (matched o.number), report code parsed o.id p.1)) act
      ∙ ap
          (λ j. (
            ok (matched o.number),
            report code parsed j
                (transition_status now j paid none "paid via webhook" (logged db)).1,
          ))
          i

  -- A captured payment of a pending order of which every unit is reserved, over stock in which
  -- reserved units are on hand: the webhook is answered as matched, the order is paid, each variant's
  -- reserved units and units on hand fall by what the order's items ask for, and the order's payments
  -- with this provider, and no other, are marked as captured.
  pub handle_webhook-captured :
      (db : Db)
      → Reports registry code request parsed k o db
      → parsed.new_status ≡ "captured"
      → Stands k pending o db
      → ((v : ℕ) → ordered k db v ≤ℤ reserved_total v db.inventory)
      → let (r, db') = handle_webhook registry now code request db in
        (r ≡ ok (matched o.number))
        × Stands k paid (moved_to now paid o) db'
        × Changes
            (λ v. pos 0 -ℤ ordered k db v)
            (λ v. pos 0 -ℤ ordered k db v)
            db.inventory
            db'.inventory
        × (db'.payments ≡ update_where (is_payment_of k code) (as_reported parsed) db.payments)
  handle_webhook-captured db r e stands enough =
      let pay =
        transition_status-paid now k none "paid via webhook" o (logged db)
          (record {
            distinct = stands.distinct;
            there = stands.there;
            lives = stands.lives;
            in_status = stands.in_status;
            valid = stands.valid;
            nonneg = stands.nonneg;
          })
          enough in
      rw (reported db r e) (
        refl,
        record {
          distinct = pay.stands.distinct;
          there = pay.stands.there;
          lives = pay.stands.lives;
          in_status = pay.stands.in_status;
          valid = pay.stands.valid;
          nonneg = pay.stands.nonneg;
        },
        pay.changes,
        ap (update_where (is_payment_of k code) (as_reported parsed))
            (transition_status-payments now k paid none "paid via webhook" (logged db)),
      )

  -- A captured payment is reported for an order that may not become paid, for one because it is paid
  -- already or because it is cancelled. The webhook is answered as matched. The order and the stock do
  -- not change, but the order's payments with this provider are marked as captured.
  pub handle_webhook-not_payable :
      (db : Db)
      → Reports registry code request parsed k o db
      → parsed.new_status ≡ "captured"
      → can_transition_to o paid ≡ false
      → handle_webhook registry now code request db
        ≡ (ok (matched o.number), report code parsed k (logged db))
  handle_webhook-not_payable db r e refused =
      let found = get_one-key k db.orders o r.distinct r.there r.lives in
      let no : is_ok (paying db).0 ≡ false =
        is_ok-transition_status now k paid none "paid via webhook" (logged db) o found
        ∙ rw refused refl in
      reported db r e
      ∙ ap (λ d. (ok (matched o.number), report code parsed k d))
          (transition_status-failed now k paid none "paid via webhook" (logged db) no)
