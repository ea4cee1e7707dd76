-- ===== src/Payments/Services.antt =====
-- django_app/apps/payments/services.py and tasks.py: charges, webhooks and the expiry of payments.
use text.Mathlib.Text.{◌==◌ as str_eq}
use ecommerce.Prelude.{
  ℕ, ◌+◌, Bool, not, ◌&&◌, ◌||◌, Option, none, some, String, List, [], ◌∷◌, ◌++◌, ◌==◌, ltb,
  filter_by, length, if◌then◌else◌,
}
use ecommerce.Exec.{
  Exec, Result, ok, err, value_error, validation_error, does_not_exist, atomic, pure, modify,
  or_raise, ◌>>=◌, ◌>>◌,
}
use ecommerce.Core.Models.{update_where, alive, update_fields}
use ecommerce.Orders.{pending, paid, cancelled, refunded, Order, order_model, status_eq, EventCode}
use ecommerce.Orders.Services.{event, log_event, transition_status}
use ecommerce.Payments.{Payment, payment_model}
use ecommerce.Payments.Json.{Value, str, end, entry, dict, jsonable}
use ecommerce.Payments.Providers.{
  ChargeIntent, ChargeResult, OrderRef, missing, key, malformed, WebhookResult, Registry,
  get_provider,
}
use ecommerce.Database.{Db, lift, get_one}

abbrev pub intent_of : (ℕ → String) → Order → String → String → ChargeIntent
intent_of text_of order success_url cancel_url = record {
  order_id = order.id;
  order_number = order.number;
  amount = order.grand_total;
  currency = order.currency;
  customer_email = order.email_snapshot;
  success_url = success_url;
  cancel_url = cancel_url;
  metadata = dict (entry "order_id" (str (text_of order.id)) end);
}

abbrev pub as_failed : String → Payment → Payment
as_failed error p = record p { status = "failed"; error = dict (entry "message" (str error) end) }

abbrev pub as_charged : ChargeResult → Payment → Payment
as_charged result p = record p {
  status = "pending";
  provider_reference = result.provider_reference;
  provider_intent_id = result.intent_id;
  redirect_url = result.redirect_url;
  raw_response = jsonable result.raw;
}

-- The row that `Payment.objects.create` inserts.
abbrev pub new_payment : ℕ → ℕ → Order → String → Value → Payment
new_payment now id order provider_code raw_request = record {
  id = id;
  order = order.id;
  provider = provider_code;
  status = "pending";
  amount = order.grand_total;
  currency = order.currency;
  provider_reference = "";
  provider_intent_id = "";
  redirect_url = "";
  raw_request = raw_request;
  raw_response = dict end;
  error = dict end;
  created_at = now;
  deleted_at = none;
}

abbrev pub charged_order : String → String → Order → Order
charged_order provider_code reference o = record o {
  payment_provider = provider_code;
  payment_reference = reference;
}

-- What the provider's answer to the charge writes.
unfoldable pub settle_charge : ℕ → Order → String → ChargeResult → Payment → Exec Db Payment
settle_charge id order provider_code result payment db =
    if not result.success
    then (
      ok (as_failed result.error payment),
      record db { payments = update_fields id (as_failed result.error) db.payments },
    )
    else (
      ok (as_charged result payment),
      record db {
        payments = update_fields id (as_charged result) db.payments;
        orders =
            update_fields order.id (charged_order provider_code result.provider_reference)
              db.orders;
      },
    )

module _ {Request : Type 0} (registry : Registry Request) where
  -- The key of the new payment is `id`; `text_of` writes a key and `asdict` reads an intent as a dict.
  unfoldable pub charge :
      (ℕ → String)
      → (ChargeIntent → Value)
      → ℕ
      → ℕ
      → Order
      → String
      → String
      → String
      → Exec Db Payment
  unfolding get_provider settle_charge
  charge text_of asdict now id order provider_code success_url cancel_url = do
    provider ← or_raise (get_provider registry provider_code) value_error
    let intent = intent_of text_of order success_url cancel_url
    let payment = new_payment now id order provider_code (jsonable (asdict intent))
    modify λ db. record db { payments = db.payments ++ payment ∷ [] }
    result ← lift (λ db. provider.create_charge intent)
    settle_charge id order provider_code result payment

  unfoldable pub create_payment :
      (ℕ → String)
      → (ChargeIntent → Value)
      → ℕ
      → ℕ
      → Order
      → String
      → String
      → String
      → Exec Db Payment
  unfolding charge
  create_payment text_of asdict now id order provider_code success_url cancel_url =
      atomic (charge text_of asdict now id order provider_code success_url cancel_url)

-- What `handle_webhook` returns.
pub data Reply : Type 0 where
  rejected : String → Reply
  unmatched : Reply
  matched : String → Reply

abbrev or_none : Result Order → Result (Option Order)
or_none (ok o) = ok (some o)
or_none (err does_not_exist) = ok none
or_none (err e) = err e

unfoldable pub order_by_key : OrderRef → List Order → Result (Option Order)
unfolding get_one
order_by_key missing orders = ok none
order_by_key malformed orders = err validation_error
order_by_key (key k) orders = or_none (get_one (λ o. o.id == k) orders)

-- `.first()` of orders, newest first: a table's rows stand in the order of their creation.
abbrev pub newest : List Order → Option Order
newest [] = none
newest (o ∷ []) = some o
newest (o ∷ p ∷ rest) = newest (p ∷ rest)

unfoldable pub order_by_reference : String → List Order → Option Order
order_by_reference reference orders =
    if str_eq reference ""
    then none
    else newest (filter_by (λ o. str_eq o.payment_reference reference) (alive orders))

-- The order that a webhook is about.
unfoldable pub matched_order : WebhookResult → Db → Result (Option Order)
unfolding order_by_key order_by_reference
matched_order parsed db = elim (order_by_key parsed.order_id db.orders) [
  | err e ↦ err e
  | ok (some o) ↦ ok (some o)
  | ok none ↦ ok (order_by_reference parsed.payment_reference db.orders)
]

-- `except Exception`: the error is logged and the block goes on.
abbrev pub swallow : {A : Type 0} → Exec Db A → Exec Db (Unit {0})
swallow m db = let (r, db') = m db in (ok tt, db')

abbrev pub cancel_message : String → String
cancel_message status =
    if str_eq status "failed"
    then "cancelled via webhook (failed)"
    else "cancelled via webhook (cancelled)"

unfoldable pub act_on : ℕ → String → Order → Exec Db (Unit {0})
unfolding transition_status
act_on now status order =
    if str_eq status "captured"
    then swallow (transition_status now order.id paid none "paid via webhook")
    else if (str_eq status "failed" || str_eq status "cancelled") && status_eq order.status pending
    then transition_status now order.id cancelled none (cancel_message status) >> pure tt
    else if str_eq status "refunded"
    then transition_status now order.id refunded none "refunded via webhook" >> pure tt
    else pure tt

abbrev pub or_pending : String → String
or_pending status = if str_eq status "" then "pending" else status

abbrev pub is_payment_of : ℕ → String → Payment → Bool
is_payment_of order provider_code p = p.order == order && str_eq p.provider provider_code

abbrev pub as_reported : WebhookResult → Payment → Payment
as_reported parsed p = record p { status = or_pending parsed.new_status; raw_response = parsed.raw }

abbrev pub report : String → WebhookResult → ℕ → Db → Db
report provider_code parsed order db = record db {
  payments = update_where (is_payment_of order provider_code) (as_reported parsed) db.payments;
}

-- What is done for the order that the webhook is about, or for none.
unfoldable pub apply_event : ℕ → String → WebhookResult → Option Order → Exec Db Reply
unfolding act_on update_where
apply_event now provider_code parsed none = pure unmatched
apply_event now provider_code parsed (some order) = do
  modify (
      log_event
        (event order.id (EventCode.webhook parsed.event_type) "payment provider webhook" none))
  act_on now parsed.new_status order
  modify (report provider_code parsed order.id)
  pure (matched order.number)

unfoldable pub answer : ℕ → String → WebhookResult → Exec Db Reply
unfolding matched_order apply_event
answer now provider_code parsed =
    if not parsed.accepted
    then pure (rejected parsed.error)
    else lift (matched_order parsed) >>= apply_event now provider_code parsed

module _ {Request : Type 0} (registry : Registry Request) where
  unfoldable pub webhook : ℕ → String → Request → Exec Db Reply
  unfolding get_provider answer
  webhook now provider_code request = do
    provider ← or_raise (get_provider registry provider_code) value_error
    let parsed = provider.parse_webhook request
    answer now provider_code parsed

  unfoldable pub handle_webhook : ℕ → String → Request → Exec Db Reply
  unfolding webhook
  handle_webhook now provider_code request = atomic (webhook now provider_code request)

-- A pending payment that was created before `now` by more than `age`.
abbrev pub is_stale : ℕ → ℕ → Payment → Bool
is_stale now age p = str_eq p.status "pending" && ltb (p.created_at + age) now

abbrev pub as_expired : Payment → Payment
as_expired p = record p { status = "failed"; error = dict (entry "reason" (str "expired") end) }

-- The number of updated rows, and the table.
unfoldable pub expire_pending_payments : ℕ → ℕ → List Payment → ℕ × List Payment
unfolding update_where
expire_pending_payments now age t =
    (length (filter_by (is_stale now age) (alive t)), update_where (is_stale now age) as_expired t)
