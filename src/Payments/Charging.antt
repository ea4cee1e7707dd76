-- ===== src/Payments/Charging.antt =====
-- What `create_payment` of django_app/apps/payments/services.py does on each branch.
use ecommerce.Prelude.{
  ℕ, ◌≡◌, ◌≢◌, refl, sym, ap, ◌∙◌, ◌⊎◌, inl, inr, Bool, true, false, Option, none, some, String, [],
  ◌∷◌, ◌++◌, Bool-cases, Option-cases,
}
use ecommerce.Exec.{
  Result, err, value_error, is_ok, ok, Error, settle, Returns, Returns-settled, is_ok-atomic,
}
use ecommerce.Core.Models.{lookup, update_fields}
use ecommerce.Core.Models.Rows.{lookup-append_new}
use ecommerce.Core.Models.Updating.{
  lookup-append_other, lookup-update_fields_ne, lookup-update_fields_self,
}
use ecommerce.Orders.{Order, order_model}
use ecommerce.Payments.{Payment, payment_model}
use ecommerce.Payments.Json.{Value, jsonable}
use ecommerce.Payments.Providers.{ChargeIntent, ChargeResult, Provider, Registry, get_provider}
use ecommerce.Payments.Services.{
  intent_of, new_payment, as_failed, as_charged, charged_order, settle_charge, charge,
  create_payment,
}
use ecommerce.Database.{Db}

-- The registry has the provider, and its charge returns.
abbrev pub is_answered : {Request : Type 0} → Option (Provider Request) → ChargeIntent → Bool
is_answered none intent = false
is_answered (some provider) intent = is_ok (provider.create_charge intent)

-- What a call that returns leaves behind, for the payment `p` with the key `id`.
pub record Charged (id : ℕ) (o : Order) (code : String) (db : Db) (p : Payment) (db' : Db)
    : Type 0 where
  pub stored : lookup id db'.payments ≡ some p
  pub terms : (p.order ≡ o.id) × (p.amount ≡ o.grand_total) × (p.provider ≡ code)
  pub outcome : (p.status ≡ "pending") ⊎ ((p.status ≡ "failed") × (db'.orders ≡ db.orders))
  pub other_payments : (j : ℕ) → j ≢ id → lookup j db'.payments ≡ lookup j db.payments
  pub other_orders : (j : ℕ) → j ≢ o.id → lookup j db'.orders ≡ lookup j db.orders
  pub same_order :
      (a : Order)
      → lookup o.id db.orders ≡ some a
      → (a' : Order) × (lookup o.id db'.orders ≡ some a')
        × (a'.status ≡ a.status)
        × (a'.grand_total ≡ a.grand_total)
  pub rest : db' ≡ record db { payments = db'.payments; orders = db'.orders }

module _ {Request : Type 0} (registry : Registry Request) (text_of : ℕ → String)
    (asdict : ChargeIntent → Value) (now id : ℕ) (o : Order) (code success_url cancel_url : String)
    (db : Db) (fresh : lookup id db.payments ≡ none) where
  intent : ChargeIntent
  intent = intent_of text_of o success_url cancel_url

  inserted : Payment
  inserted = new_payment now id o code (jsonable (asdict intent))

  with_payment : Db
  with_payment = record db { payments = db.payments ++ inserted ∷ [] }

  payments_after :
      (f : Payment → Payment)
      → ((p : Payment) → (f p).id ≡ p.id)
      → (lookup id (update_fields id f (db.payments ++ inserted ∷ [])) ≡ some (f inserted))
        × ((j : ℕ)
            → j ≢ id
            → lookup j (update_fields id f (db.payments ++ inserted ∷ [])) ≡ lookup j db.payments)
  unfolding inserted intent
  payments_after f keeps = (
    lookup-update_fields_self id f keeps inserted (db.payments ++ inserted ∷ [])
        (lookup-append_new inserted db.payments fresh),
    λ j ne.
        lookup-update_fields_ne id f keeps j (db.payments ++ inserted ∷ []) (λ e. ne (sym e))
        ∙ lookup-append_other j inserted db.payments (λ e. ne (sym e)),
  )

  settled :
      (result : ChargeResult)
      → Returns db (Charged id o code db) (settle_charge id o code result inserted with_payment)
  unfolding settle_charge inserted intent with_payment
  settled result = elim (Bool-cases result.success) [
    | inr e ↦
        let after = payments_after (as_failed result.error) (λ p. refl) in
        rw e (record {
          stored = after.0;
          terms = (refl, refl, refl);
          outcome = inr (refl, refl);
          other_payments = after.1;
          other_orders = λ j ne. refl;
          same_order = λ a h. (a, h, refl, refl);
          rest = refl;
        })
    | inl e ↦
        let after = payments_after (as_charged result) (λ p. refl) in
        let f : Order → Order = charged_order code result.provider_reference in
        rw e (record {
          stored = after.0;
          terms = (refl, refl, refl);
          outcome = inl refl;
          other_payments = after.1;
          other_orders =
              λ j ne. lookup-update_fields_ne o.id f (λ a. refl) j db.orders (λ k. ne (sym k));
          same_order =
              λ a h. (f a, lookup-update_fields_self o.id f (λ a. refl) a db.orders h, refl, refl);
          rest = refl;
        })
  ]

  is_ok-settle_charge :
      (result : ChargeResult)
      → is_ok (settle_charge id o code result inserted with_payment).0 ≡ true
  unfolding settle_charge
  is_ok-settle_charge result = elim (Bool-cases result.success) [
    | inl e ↦ rw e refl
    | inr e ↦ rw e refl
  ]

  call : Result Payment × Db
  call = charge registry text_of asdict now id o code success_url cancel_url db

  charge_unknown : get_provider registry code ≡ none → call ≡ (err value_error, db)
  unfolding call charge
  charge_unknown e = rw e refl

  charge_raised :
      (provider : Provider Request) (x : Error)
      → get_provider registry code ≡ some provider
      → provider.create_charge intent ≡ err x
      → call ≡ (err x, with_payment)
  unfolding call charge intent inserted with_payment
  charge_raised provider x e h = rw (e, h) refl

  charge_known :
      (provider : Provider Request) (result : ChargeResult)
      → get_provider registry code ≡ some provider
      → provider.create_charge intent ≡ ok result
      → call ≡ settle_charge id o code result inserted with_payment
  unfolding call charge intent inserted with_payment
  charge_known provider result e h = rw (e, h) refl

  created : Result Payment × Db
  created = create_payment registry text_of asdict now id o code success_url cancel_url db

  created-Returns :
      (r : Result Payment × Db)
      → call ≡ r
      → Returns db (Charged id o code db) (settle db r)
      → Returns db (Charged id o code db) created
  unfolding created create_payment call
  created-Returns r e h = rw e h

  is_ok-created : is_ok created.0 ≡ is_ok call.0
  unfolding created create_payment call
  is_ok-created =
      is_ok-atomic (charge registry text_of asdict now id o code success_url cancel_url) db

  by_charge :
      (provider : Provider Request)
      → get_provider registry code ≡ some provider
      → (r : Result ChargeResult) → provider.create_charge intent ≡ r
      → (is_ok created.0 ≡ is_ok r) × Returns db (Charged id o code db) created
  by_charge provider e (ok result) h =
      let eq = charge_known provider result e h in
      (
        is_ok-created ∙ ap (λ (p : Result Payment × Db). is_ok p.0) eq ∙ is_ok-settle_charge result,
        created-Returns _ eq (
            Returns-settled db (Charged id o code db)
              (settle_charge id o code result inserted with_payment) (settled result)),
      )
  by_charge provider e (err x) h =
      let eq = charge_raised provider x e h in
      (is_ok-created ∙ ap (λ (p : Result Payment × Db). is_ok p.0) eq, created-Returns _ eq refl)

  -- The key of the new payment is free. The call returns exactly when the registry has the provider
  -- and the provider's charge returns, and raises without a change otherwise. A call that returns
  -- gives the payment that it has added, of the order's amount, which is pending, or failed if the
  -- charge was refused; then no order is touched. No other payment and no other order changes, and
  -- the order keeps its status and its amount.
  pub create_payment-Returns :
      let p = create_payment registry text_of asdict now id o code success_url cancel_url db in
      (is_ok p.0
        ≡ is_answered (get_provider registry code) (intent_of text_of o success_url cancel_url))
      × Returns db (Charged id o code db) p
  unfolding created intent
  create_payment-Returns = elim (Option-cases (get_provider registry code)) [
    | inl e ↦ rw e (
      is_ok-created ∙ ap (λ (p : Result Payment × Db). is_ok p.0) (charge_unknown e),
      created-Returns _ (charge_unknown e) refl,
    )
    | inr (provider, e) ↦ rw e (by_charge provider e (provider.create_charge intent) refl)
  ]
