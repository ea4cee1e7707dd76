-- ===== src/Api/Owners.antt =====
-- What a plain user cannot do to the orders of others: django_app/apps/orders/views.py and
-- payments/views.py.
use ecommerce.Prelude.{
  ℕ, ◌≡◌, ◌≢◌, refl, sym, ap, ◌∙◌, inl, inr, Bool, true, false, not, ◌&&◌, Option, none, some,
  String, arith, ◌==◌, if◌then◌else◌, Bool-cases, &&-eq_true,
}
use ecommerce.Exec.{
  Result, ok, err, does_not_exist, checkout_error, Outcome-keeps, Outcome-map, Returns-Outcome,
}
use ecommerce.Core.Models.{Distinct, lookup}
use ecommerce.Core.Permissions.{User, owned_by, has_object_permission}
use ecommerce.Orders.{Order, order_model, cancelled}
use ecommerce.Orders.Services.{transition_status}
use ecommerce.Orders.Lifecycle.{transition_status-Outcome}
use ecommerce.Payments.{Payment, payment_model}
use ecommerce.Payments.Json.{Value}
use ecommerce.Payments.Providers.{ChargeIntent, Registry}
use ecommerce.Payments.Services.{create_payment}
use ecommerce.Payments.Charging.{Charged, create_payment-Returns}
use ecommerce.Database.{Db, get_one}
use ecommerce.Database.Queries.{get_one-ok}
use ecommerce.Api.{Answer, after, reply, unless_checkout_error}
use ecommerce.Api.Selling.{
  sees, cancels, by_object, cancel, refreshed, pays, known, create_for_order,
}

unless_state :
    {A B : Type 0} (status : ℕ) (code : String) (r : Result A × Db) (k : A → Db → Answer B × Db)
    → ((a : A) (db : Db) → (k a db).1 ≡ db)
    → (unless_checkout_error status code r k).1 ≡ r.1
unless_state status code (ok a, db) k h = h a db
unless_state status code (err checkout_error, db) k h = refl
unless_state status code (err e, db) k h = refl

-- Both branches of a test.
either :
    {A : Type 0} (b : Bool) (x y : A × Db) (P : Db → Type 0)
    → P x.1
    → P y.1
    → P (if b then x else y).1
either true x y P h k = h
either false x y P h k = k

after_state :
    {A B : Type 0} (r : Result A × Db) (k : A → Db → Answer B × Db)
    → ((a : A) (db : Db) → (k a db).1 ≡ db)
    → (after r k).1 ≡ r.1
after_state (ok a, db) k h = h a db
after_state (err e, db) k h = refl

refreshed_state : (db : Db) (o : Option Order) → (refreshed db o).1 ≡ db
refreshed_state db none = refl
refreshed_state db (some o) = refl

-- What a request leaves of the order `j` and of its payments, where `id` is the key of a new one.
pub record Spared (id j : ℕ) (o : Order) (db db' : Db) : Type 0 where
  pub order_kept : lookup j db'.orders ≡ some o
  pub payments_kept : (i : ℕ) → i ≢ id → lookup i db'.payments ≡ lookup i db.payments
  pub not_paid : (p : Payment) → lookup id db'.payments ≡ some p → p.order ≢ j

module _ (user : User) (plain : (user.is_staff ≡ false) × (user.is_superuser ≡ false)) (db : Db)
    (distinct : Distinct db.orders) (j : ℕ) (o : Order) (there : lookup j db.orders ≡ some o)
    (foreign : owned_by user.id o.user ≡ false) where
  sees_own : (a : Order) → sees user a ≡ true → owned_by user.id a.user ≡ true
  sees_own a h = ground arith

  -- An order that belongs to the user is another one.
  other_key :
      (a : Order) → lookup a.id db.orders ≡ some a → owned_by user.id a.user ≡ true → j ≢ a.id
  other_key a stored own e = let same : o ≡ a = ground arith in absurd (ground arith)

  after_transition :
      (now : ℕ) (a : Order)
      → j ≢ a.id
      → lookup j
          (transition_status now a.id cancelled (some user.id) "cancelled by user" db).1.orders
        ≡ some o
  after_transition now a ne =
      let r = transition_status now a.id cancelled (some user.id) "cancelled by user" db in
      let P : Db → Type 0 = λ s. lookup j s.orders ≡ some o in
      Outcome-keeps db P r there (
        Outcome-map db _ P r
          (λ s h. let (x, stored, allowed, moved, others, all) = h in others j ne ∙ there)
          (transition_status-Outcome now a.id cancelled (some user.id) "cancelled by user" db
            distinct))

  own_object :
      (now pk : ℕ) (a : Order)
      → get_one (λ o. sees user o && o.id == pk) db.orders ≡ ok a
      → lookup j (cancels now user a db).1.orders ≡ some o
  own_object now pk a found =
      let (stored, lives, fits) =
        get_one-ok (λ o. sees user o && o.id == pk) db.orders a distinct found in
      let own = sees_own a (&&-eq_true (sees user a) (a.id == pk) fits).0 in
      let r = transition_status now a.id cancelled (some user.id) "cancelled by user" db in
      ap (λ (s : Db). lookup j s.orders)
        (unless_state 409 "invalid_transition" r (λ moved s. refreshed s (lookup a.id s.orders))
          (λ moved s. refreshed_state s (lookup a.id s.orders)))
      ∙ after_transition now a (other_key a stored own)

  cancelled_other :
      (now pk : ℕ) (r : Result Order)
      → get_one (λ o. sees user o && o.id == pk) db.orders ≡ r
      → lookup j (by_object now user db r).1.orders ≡ some o
  cancelled_other now pk (ok a) found =
      elim (Bool-cases (has_object_permission (some user) a.user)) [
        | inl e ↦ rw e (own_object now pk a found)
        | inr e ↦ rw e there
      ]
  cancelled_other now pk (err does_not_exist) found = there
  cancelled_other now pk (err e) found = there

  -- No two orders have one key. A user who is neither staff nor superuser asks to cancel an order,
  -- whichever: the row of an order that is not the user's is as it was.
  pub cancel_others : (now pk : ℕ) → lookup j (cancel now user pk db).1.orders ≡ some o
  unfolding cancel
  cancel_others now pk =
      either (not user.is_authenticated) _ _ (λ s. lookup j s.orders ≡ some o) there
        (cancelled_other now pk (get_one (λ o. sees user o && o.id == pk) db.orders) refl)

  module _ {Request : Type 0} (registry : Registry Request) (text_of : ℕ → String)
      (asdict : ChargeIntent → Value) (now id pk : ℕ) (provider success_url cancel_url : String)
      (fresh : lookup id db.payments ≡ none) where
    spared : Spared id j o db db
    spared = record { order_kept = there; payments_kept = λ i ne. refl; not_paid = λ p h. cc }

    charged_other :
        (a : Order)
        → j ≢ a.id
        → Spared id j o db
            (create_payment registry text_of asdict now id a provider success_url cancel_url db).1
    charged_other a ne =
        let r =
          create_payment registry text_of asdict now id a provider success_url cancel_url db in
        Outcome-keeps db (Spared id j o db) r spared (
          Returns-Outcome db (Charged id a provider db) (Spared id j o db) r
            (λ q s c. record {
              order_kept = c.other_orders j ne ∙ there;
              payments_kept = c.other_payments;
              not_paid = λ p e k.
                  let same : q ≡ p = grind arith in
                  ne (sym k ∙ ap (λ (x : Payment). x.order) (sym same) ∙ c.terms.0);
            })
            (create_payment-Returns registry text_of asdict now id a provider success_url cancel_url
              db fresh).1)

    paid_own :
        (a : Order)
        → get_one (λ o. o.id == pk) db.orders ≡ ok a
        → owned_by user.id a.user ≡ true
        → Spared id j o db
            (after
              (create_payment registry text_of asdict now id a provider success_url cancel_url db)
              (λ p db'. (reply 201 p, db'))).1
    paid_own a found own =
        let (stored, lives, fits) = get_one-ok (λ o. o.id == pk) db.orders a distinct found in
        let r =
          create_payment registry text_of asdict now id a provider success_url cancel_url db in
        rw (after_state r (λ p db'. (reply 201 p, db')) (λ p s. refl))
          (charged_other a (other_key a stored own))

    paid_other :
        (r : Result Order)
        → get_one (λ o. o.id == pk) db.orders ≡ r
        → Spared id j o db
            (pays registry text_of asdict now id user provider success_url cancel_url db r).1
    paid_other (err does_not_exist) found = spared
    paid_other (err e) found = spared
    paid_other (ok a) found =
        elim (Bool-cases (not user.is_staff && not (owned_by user.id a.user))) [
          | inl e ↦ rw e spared
          | inr e ↦ rw e (paid_own a found (ground (arith, plain)))
        ]

    -- No two orders have one key, and the key of a new payment is unused. A user who is neither staff
    -- nor superuser asks to pay for an order, whichever: an order that is not the user's is as it was,
    -- no payment has changed, and a new one is of another order.
    pub create_for_order_others :
        Spared id j o db
          (create_for_order registry text_of asdict now id user pk provider success_url cancel_url
            db).1
    unfolding create_for_order
    create_for_order_others = either (not user.is_authenticated) _ _ (Spared id j o db) spared (
        either (not (known registry text_of asdict provider)) _ _ (Spared id j o db) spared
          (paid_other (get_one (λ o. o.id == pk) db.orders) refl))
