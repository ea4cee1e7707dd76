-- ===== src/Payments/Expiry.antt =====
-- `handle_webhook` of django_app/apps/payments/services.py for an event that reports no status, and
-- `expire_pending_payments` of django_app/apps/payments/tasks.py.
use ecommerce.Prelude.{
  ℕ, ◌+◌, ◌≡◌, refl, ap, ◌∙◌, inl, inr, Bool, true, ◌&&◌, some, String, List, [], ◌∷◌, ◌==◌, ltb,
  arith, Bool-cases,
}
use ecommerce.Exec.{ok, is_ok}
use ecommerce.Core.Models.{update_where, Model, lookup, is_alive}
use ecommerce.Core.Models.Rows.{pk-lookup}
use ecommerce.Orders.{Order, order_model}
use ecommerce.Payments.{Payment, payment_model}
use ecommerce.Payments.Providers.{WebhookResult, Registry}
use ecommerce.Payments.Services.{
  matched, act_on, report, is_payment_of, as_reported, handle_webhook, expire_pending_payments,
  is_stale, as_expired,
}
use ecommerce.Database.{Db}
use ecommerce.Payments.Webhooks.{Reports, logged, answered}

module _ {A : Type 0} ⦃m : Model A⦄ (p : A → Bool) (f : A → A)
    (same_key : (a : A) → m.pk (f a) ≡ m.pk a) where
  lookup-update_where :
      (k : ℕ) (a : A) (t : List A)
      → lookup k t ≡ some a
      → is_alive a ≡ true
      → p a ≡ true
      → lookup k (update_where p f t) ≡ some (f a)
  unfolding update_where lookup
  lookup-update_where k a [] there lives fits = cc
  lookup-update_where k a (b ∷ t) there lives fits =
      let rest = lookup-update_where k a t in
      let same = same_key b in
      elim (Bool-cases (m.pk b == k)) [
        | inl e ↦
            let here : b ≡ a = ground arith in
            let passes : is_alive b && p b ≡ true = ground arith in
            rw passes (rw same (rw e (ap (λ x. some (f x)) here)))
        | inr e ↦ elim (Bool-cases (is_alive b && p b)) [
          | inl q ↦ rw q (rw same (rw e (rest (ground arith) lives fits)))
          | inr q ↦ rw q (rw e (rest (ground arith) lives fits))
        ]
      ]

act_on-none :
    (now : ℕ) (o : Order) (db : Db) (status : String)
    → status ≡ ""
    → act_on now status o db ≡ (ok tt, db)
unfolding act_on
act_on-none now o db status e = rw e refl

module _ {Request : Type 0} (registry : Registry Request) (code : String) (request : Request)
    (parsed : WebhookResult) (k : ℕ) (o : Order) (db : Db) where
  -- An event without a status, for an order that is found: the order and the stock do not change, but
  -- a payment of that order and provider becomes pending, whatever it was. The next run of the expiry
  -- marks it as failed, if it is old enough. So a captured payment ends as failed.
  pub expire-handle_webhook :
      (now later age j : ℕ) (p : Payment)
      → Reports registry code request parsed k o db
      → parsed.new_status ≡ ""
      → lookup j db.payments ≡ some p
      → is_alive p ≡ true
      → is_payment_of k code p ≡ true
      → ltb (p.created_at + age) later ≡ true
      → let (r, db') = handle_webhook registry now code request db in
        let (n, payments) = expire_pending_payments later age db'.payments in
        (r ≡ ok (matched o.number))
        × (db'.orders ≡ db.orders)
        × (db'.inventory ≡ db.inventory)
        × (lookup j db'.payments ≡ some (as_reported parsed p))
        × (lookup j payments ≡ some (as_expired (as_reported parsed p)))
  unfolding expire_pending_payments
  expire-handle_webhook now later age j p r e there lives belongs old =
      let i : o.id ≡ k = pk-lookup k o db.orders r.there in
      let act =
        act_on-none now o (logged registry now code request parsed k o db) parsed.new_status e in
      let result : handle_webhook registry now code request db ≡ (
        ok (matched o.number),
        report code parsed k (logged registry now code request parsed k o db),
      ) =
        answered registry now code request parsed k o db r (ap (λ q. is_ok q.0) act)
        ∙ ap (λ q. (ok (matched o.number), report code parsed o.id q.1)) act
        ∙ ap
            (λ n. (
              ok (matched o.number),
              report code parsed n (logged registry now code request parsed k o db),
            ))
            i in
      let reset : lookup j (update_where (is_payment_of k code) (as_reported parsed) db.payments)
          ≡ some (as_reported parsed p) =
        lookup-update_where (is_payment_of k code) (as_reported parsed) (λ a. refl) j p db.payments
          there lives belongs in
      let stale : is_stale later age (as_reported parsed p) ≡ true = rw e old in
      rw result (
        refl,
        refl,
        refl,
        reset,
        lookup-update_where (is_stale later age) as_expired (λ a. refl) j (as_reported parsed p) _
            reset lives stale,
      )
