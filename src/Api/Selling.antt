-- ===== src/Api/Selling.antt =====
-- `OrderViewSet` of django_app/apps/orders/views.py and `PaymentViewSet` and `WebhookView` of
-- payments/views.py. Whether a text is an e-mail address is a parameter; the lengths that the
-- serializers allow are not read.
use text.Mathlib.Text.{◌==◌ as str_eq}
use ecommerce.Prelude.{
  ℕ, Bool, true, false, not, ◌&&◌, ◌||◌, Option, none, some, String, List, ◌==◌, filter_by,
  if◌then◌else◌,
}
use ecommerce.Exec.{Result, ok, err, does_not_exist}
use ecommerce.Core.Models.{is_null, alive, lookup}
use ecommerce.Core.Permissions.{User, signed_in, has_object_permission, owned_by}
use ecommerce.Cart.{Cart}
use ecommerce.Orders.{Order, OrderItem, OrderEvent, order_model, cancelled}
use ecommerce.Orders.Services.{
  CheckoutInput, order_items_of, transition_status, create_order_from_cart,
}
use ecommerce.Payments.{Payment, payment_model}
use ecommerce.Payments.Json.{Value}
use ecommerce.Payments.Providers.{ChargeIntent, Registry, get_provider}
use ecommerce.Payments.Services.{Reply, rejected, create_payment, handle_webhook}
use ecommerce.Database.{Db, get_one}
use ecommerce.Api.{
  Answer, replies, raises, http404, invalid, not_authenticated, denied, service, reply,
  error_response, after, unless_checkout_error,
}
use ecommerce.Api.Carts.{Caller, resolve_cart}

-- `OrderSerializer`
pub record OrderData : Type 0 where
  pub order : Order
  pub items : List OrderItem
  pub events : List OrderEvent

unfoldable pub order_data : Order → Db → OrderData
unfolding order_items_of
order_data o db = record {
  order = o;
  items = order_items_of o.id db.order_items;
  events = filter_by (λ e. e.order == o.id) db.order_events;
}

-- The orders that `get_queryset` gives to a user.
abbrev pub sees : User → Order → Bool
sees user o = user.is_staff || user.is_superuser || owned_by user.id o.user

-- `order.refresh_from_db()`, and the reply.
abbrev pub refreshed : Db → Option Order → Answer OrderData × Db
refreshed db none = (raises (service does_not_exist), db)
refreshed db (some o) = (reply 200 (order_data o db), db)

abbrev pub cancels : ℕ → User → Order → Db → Answer OrderData × Db
cancels now user o db =
    unless_checkout_error 409 "invalid_transition"
      (transition_status now o.id cancelled (some user.id) "cancelled by user" db)
      (λ moved db'. refreshed db' (lookup o.id db'.orders))

-- `get_object`: the order as the queryset gives it, or 404, and then the permission on it.
abbrev pub by_object : ℕ → User → Db → Result Order → Answer OrderData × Db
by_object now user db (ok o) =
    if has_object_permission (some user) o.user then cancels now user o db else (raises denied, db)
by_object now user db (err does_not_exist) = (raises http404, db)
by_object now user db (err e) = (raises (service e), db)

unfoldable pub cancel : ℕ → User → ℕ → Db → Answer OrderData × Db
unfolding has_object_permission order_data
cancel now user pk db =
    if not user.is_authenticated
    then (raises not_authenticated, db)
    else by_object now user db (get_one (λ o. sees user o && o.id == pk) db.orders)

-- The choices of `shipping_method`.
abbrev pub is_method : String → Bool
is_method s = str_eq s "standard" || str_eq s "express" || str_eq s "pickup"

module _ (valid_email : String → Bool) (iexact : String → String → Bool) where
  abbrev pub orders : ℕ → ℕ → String → Caller → CheckoutInput → Cart → Db → Answer OrderData × Db
  orders now id number caller payload cart db =
      unless_checkout_error 400 "checkout_failed"
        (create_order_from_cart iexact now id number cart caller.user payload db)
        (λ o db'. (reply 201 (order_data o db'), db'))

  -- A caller who is not signed in is refused before the cart is looked for.
  unfoldable pub checkout : ℕ → ℕ → ℕ → String → Caller → CheckoutInput → Db → Answer OrderData × Db
  unfolding order_data
  checkout now fresh id number caller payload db =
      if is_null (signed_in caller.user)
      then (raises not_authenticated, db)
      else if not (valid_email payload.email && is_method payload.shipping_method)
      then (raises invalid, db)
      else after (resolve_cart fresh caller db) (orders now id number caller payload)

module _ {Request : Type 0} (registry : Registry Request) (text_of : ℕ → String)
    (asdict : ChargeIntent → Value) where
  abbrev pub known : String → Bool
  known code = elim (get_provider registry code) [ none ↦ false | some p ↦ true ]

  abbrev pub pays :
      ℕ → ℕ → User → String → String → String → Db → Result Order → Answer Payment × Db
  pays now id user provider success_url cancel_url db (err does_not_exist) = (raises http404, db)
  pays now id user provider success_url cancel_url db (err e) = (raises (service e), db)
  pays now id user provider success_url cancel_url db (ok o) =
      if not user.is_staff && not (owned_by user.id o.user)
      then (replies (error_response 403 "forbidden"), db)
      else after
          (create_payment registry text_of asdict now id o provider success_url cancel_url db)
          (λ p db'. (reply 201 p, db'))

  -- `PaymentViewSet.create_for_order`
  unfoldable pub create_for_order :
      ℕ → ℕ → User → ℕ → String → String → String → Db → Answer Payment × Db
  create_for_order now id user order_id provider success_url cancel_url db =
      if not user.is_authenticated
      then (raises not_authenticated, db)
      else if not (known provider)
      then (raises invalid, db)
      else pays now id user provider success_url cancel_url db
          (get_one (λ o. o.id == order_id) db.orders)

  abbrev pub is_accepted : Reply → Bool
  is_accepted (rejected e) = false
  is_accepted _ = true

  -- `WebhookView.post`, for anyone.
  unfoldable pub post : ℕ → String → Request → Db → Answer Reply × Db
  post now provider_code request db =
      after (handle_webhook registry now provider_code request db)
        (λ r db'. (reply (if is_accepted r then 200 else 400) r, db'))

-- The payments that `PaymentViewSet` lists to a user.
abbrev payer : Option Order → Option ℕ
payer none = none
payer (some o) = o.user

unfoldable pub payments_of : User → Db → List Payment
payments_of user db =
    filter_by
      (λ p.
        user.is_staff || user.is_superuser || owned_by user.id (payer (lookup p.order db.orders)))
      (alive db.payments)
