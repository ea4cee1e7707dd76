-- ===== src/Payments/Redelivery.antt =====
-- `handle_webhook` of django_app/apps/payments/services.py: a webhook that is delivered again, and one
-- that raises.
use ecommerce.Core.Models.{update_where}
use ecommerce.Prelude.{ℕ, ◌≡◌, refl, sym, ap, ◌∙◌, false, Option, none, some, String, ◌==◌, arith}
use ecommerce.Prelude.Int.{◌≤ℤ◌}
use ecommerce.Exec.{Exec, Error, pure, ◌>>◌, ok, err, checkout_error, atomic}
use ecommerce.Core.Models.Rows.{pk-lookup}
use ecommerce.Inventory.Effects.{reserved_total}
use ecommerce.Orders.{
  Status, pending, paid, refunded, Order, order_model, EventCode, can_transition_to,
}
use ecommerce.Orders.Services.{event, log_event, moved_to, transition, transition_status}
use ecommerce.Orders.Effects.{Stands, ordered}
use ecommerce.Payments.{payment_model}
use ecommerce.Payments.Providers.{WebhookResult, Registry}
use ecommerce.Payments.Services.{
  matched, act_on, apply_event, answer, report, is_payment_of, as_reported, handle_webhook,
}
use ecommerce.Database.{Db, get_one}
use ecommerce.Database.Queries.{get_one-key}
use ecommerce.Payments.Webhooks.{
  Reports, logged, answers, handles, handle_webhook-captured, handle_webhook-not_payable,
  update_where-reported,
}

transition_status-refused :
    (now k : ℕ) (new : Status) (actor : Option ℕ) (message : String) (o : Order) (db : Db)
    → get_one (λ o. o.id == k) db.orders ≡ ok o
    → can_transition_to o new ≡ false
    → transition_status now k new actor message db ≡ (err checkout_error, db)
unfolding transition_status transition
transition_status-refused now k new actor message o db found refused = ground arith

then-raised :
    {A B : Type 0} (m : Exec Db A) (n : Exec Db B) (e : Error) (db : Db)
    → m db ≡ (err e, db)
    → (m >> n) db ≡ (err e, db)
then-raised m n e db h = ground arith

act_on-refunded :
    (now : ℕ) (o : Order) (db : Db) (status : String) (e : Error)
    → status ≡ "refunded"
    → transition_status now o.id refunded none "refunded via webhook" db ≡ (err e, db)
    → act_on now status o db ≡ (err e, db)
unfolding act_on
act_on-refunded now o db status e h failed = rw h (
    then-raised (transition_status now o.id refunded none "refunded via webhook") (pure tt) e db
      failed)

apply_event-failed :
    (now : ℕ) (code : String) (parsed : WebhookResult) (o : Order) (e : Error) (db db' : Db)
    → act_on now parsed.new_status o (
        log_event
          (event o.id (EventCode.webhook parsed.event_type) "payment provider webhook" none)
          db)
      ≡ (err e, db')
    → (apply_event now code parsed (some o) db).0 ≡ err e
unfolding apply_event
apply_event-failed now code parsed o e db db' h = ground arith

atomic-raised :
    {A : Type 0} (m : Exec Db A) (e : Error) (db : Db)
    → (m db).0 ≡ err e
    → atomic m db ≡ (err e, db)
atomic-raised m e db h = ground arith

module _ {Request : Type 0} (registry : Registry Request) (code : String) (request : Request)
    (parsed : WebhookResult) (k : ℕ) (o : Order) (db : Db) where
  -- The webhook of a captured payment is delivered twice, for a pending order of which every unit is
  -- reserved, over stock in which reserved units are on hand. The second delivery is answered as the
  -- first is, and it leaves the stock, the orders, their items and the payments as the first did.
  pub handle_webhook-twice :
      (now later : ℕ)
      → Reports registry code request parsed k o db
      → parsed.new_status ≡ "captured"
      → Stands k pending o db
      → ((v : ℕ) → ordered k db v ≤ℤ reserved_total v db.inventory)
      → let (r, db') = handle_webhook registry now code request db in
        let (r', db'') = handle_webhook registry later code request db' in
        (r' ≡ r)
        × (db''.inventory ≡ db'.inventory)
        × (db''.orders ≡ db'.orders)
        × (db''.order_items ≡ db'.order_items)
        × (db''.payments ≡ db'.payments)
  unfolding can_transition_to
  handle_webhook-twice now later r e stands enough =
      let (first, paid_, changes, payments) =
        handle_webhook-captured registry now code request parsed k o db r e stands enough in
      let db' = (handle_webhook registry now code request db).1 in
      let o' = moved_to now paid o in
      let second : handle_webhook registry later code request db' ≡ (
        ok (matched o.number),
        report code parsed k (logged registry later code request parsed k o' db'),
      ) =
        handle_webhook-not_payable registry later code request parsed k o' db'
          (record {
            provider = r.provider;
            registered = r.registered;
            parses = r.parses;
            accepted = r.accepted;
            by_key = r.by_key;
            distinct = paid_.distinct;
            there = paid_.there;
            lives = paid_.lives;
          })
          e refl in
      (
        ap (λ p. p.0) second ∙ sym first,
        ap (λ p. p.1.inventory) second,
        ap (λ p. p.1.orders) second,
        ap (λ p. p.1.order_items) second,
        ap (λ p. p.1.payments) second
            ∙ ap (update_where (is_payment_of k code) (as_reported parsed)) payments
            ∙ update_where-reported k code parsed db.payments
            ∙ sym payments,
      )

  -- A refund is reported for an order whose status does not allow it: the webhook raises, and nothing
  -- of it is kept, not even the event that it logged.
  pub handle_webhook-not_refundable :
      (now : ℕ)
      → Reports registry code request parsed k o db
      → parsed.new_status ≡ "refunded"
      → can_transition_to o refunded ≡ false
      → handle_webhook registry now code request db ≡ (err checkout_error, db)
  handle_webhook-not_refundable now r e refused =
      let i : o.id ≡ k = pk-lookup k o db.orders r.there in
      let found : get_one (λ x. x.id == k) db.orders ≡ ok o =
        get_one-key k db.orders o r.distinct r.there r.lives in
      let logged_db = logged registry now code request parsed k o db in
      let failed =
        transition_status-refused now k refunded none "refunded via webhook" o logged_db found
          refused in
      let act = act_on-refunded now o logged_db parsed.new_status checkout_error e (
        ap (λ n. transition_status now n refunded none "refunded via webhook" logged_db) i
        ∙ failed) in
      handles registry now code request parsed k o db r
      ∙ atomic-raised (answer now code parsed) checkout_error db (
          ap (λ q. q.0) (answers registry now code request parsed k o db r)
          ∙ apply_event-failed now code parsed o checkout_error db logged_db act)
