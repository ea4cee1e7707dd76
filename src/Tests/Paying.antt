-- ===== src/Tests/Paying.antt =====
-- The theorems on payments and webhooks, at concrete inputs.
use ecommerce.Prelude.{◌≡◌, refl, some, String, [], ◌∷◌}
use ecommerce.Prelude.Int.{pos, ◌-ℤ◌}
use ecommerce.Exec.{ok}
use ecommerce.Core.Models.{update_where, lookup}
use ecommerce.Orders.{order_model, paid}
use ecommerce.Orders.Services.{moved_to}
use ecommerce.Orders.Demand.{Changes}
use ecommerce.Orders.Effects.{Stands, ordered}
use ecommerce.Payments.{Payment, payment_model}
use ecommerce.Payments.Json.{dict, end}
use ecommerce.Payments.Providers.{
  PaymeCall, parse_payme, decoded, key, Provider, Registry, WebhookResult, manual_charge,
}
use ecommerce.Payments.Services.{
  matched, handle_webhook, expire_pending_payments, is_payment_of, as_reported, as_expired,
}
use ecommerce.Payments.Webhooks.{Reports, handle_webhook-captured}
use ecommerce.Payments.Redelivery.{handle_webhook-twice}
use ecommerce.Payments.Expiry.{expire-handle_webhook}
use ecommerce.Database.{Db}
use ecommerce.Tests.{order, payment, ordered_db, order-Stands, order_reserved}

-- Payme, called with its own credentials; the other providers are given the same webhooks.
abbrev payme : Provider PaymeCall
payme = record {
  create_charge = manual_charge (λ n. "100");
  parse_webhook = λ c. parse_payme "secret" (some ("Paycom", "secret")) (decoded c);
}

abbrev pub registry : Registry PaymeCall
registry = record { stripe = payme; paypal = payme; click = payme; payme = payme; manual = payme }

abbrev call_of : String → PaymeCall
call_of method = record { method = method; id = "t1"; order_id = key 100; payload = dict end }

abbrev perform : PaymeCall
perform = call_of "PerformTransaction"

abbrev check : PaymeCall
check = call_of "CheckTransaction"

abbrev parsed : PaymeCall → WebhookResult
parsed c = payme.parse_webhook c

reports : Reports registry "payme" perform (parsed perform) 100 order ordered_db
unfolding ecommerce.Payments.Providers.get_provider parse_payme lookup
reports = record {
  provider = payme;
  registered = refl;
  parses = refl;
  accepted = refl;
  by_key = refl;
  distinct = (refl, tt);
  there = refl;
  lives = refl;
}

handle_webhook-captured_example :
    let (r, db') = handle_webhook registry 60 "payme" perform ordered_db in
    (r ≡ ok (matched "N-100"))
    × Stands 100 paid (moved_to 60 paid order) db'
    × Changes
        (λ v. pos 0 -ℤ ordered 100 ordered_db v)
        (λ v. pos 0 -ℤ ordered 100 ordered_db v)
        ordered_db.inventory
        db'.inventory
    × (db'.payments
        ≡ update_where
            (is_payment_of 100 "payme")
            (as_reported (parsed perform))
            ordered_db.payments)
unfolding parse_payme
handle_webhook-captured_example =
    handle_webhook-captured registry 60 "payme" perform (parsed perform) 100 order ordered_db
      reports refl order-Stands order_reserved

handle_webhook-twice_example :
    let (r, db') = handle_webhook registry 60 "payme" perform ordered_db in
    let (r', db'') = handle_webhook registry 70 "payme" perform db' in
    (r' ≡ r)
    × (db''.inventory ≡ db'.inventory)
    × (db''.orders ≡ db'.orders)
    × (db''.order_items ≡ db'.order_items)
    × (db''.payments ≡ db'.payments)
unfolding parse_payme
handle_webhook-twice_example =
    handle_webhook-twice registry "payme" perform (parsed perform) 100 order ordered_db 60 70
      reports refl order-Stands order_reserved

-- A payment that is captured, of the order when it is paid.
abbrev captured_db : Db
captured_db = record ordered_db {
  orders = moved_to 55 paid order ∷ [];
  payments = record payment { status = "captured" } ∷ [];
}

check-Reports :
    Reports registry "payme" check (parsed check) 100 (moved_to 55 paid order) captured_db
unfolding ecommerce.Payments.Providers.get_provider parse_payme lookup
check-Reports = record {
  provider = payme;
  registered = refl;
  parses = refl;
  accepted = refl;
  by_key = refl;
  distinct = (refl, tt);
  there = refl;
  lives = refl;
}

expire-handle_webhook_example :
    let p : Payment = record payment { status = "captured" } in
    let (r, db') = handle_webhook registry 60 "payme" check captured_db in
    let (n, payments) = expire_pending_payments 90 60 db'.payments in
    (r ≡ ok (matched "N-100"))
    × (db'.orders ≡ captured_db.orders)
    × (db'.inventory ≡ captured_db.inventory)
    × (lookup 200 db'.payments ≡ some (as_reported (parsed check) p))
    × (lookup 200 payments ≡ some (as_expired (as_reported (parsed check) p)))
unfolding parse_payme lookup
expire-handle_webhook_example =
    expire-handle_webhook registry "payme" check (parsed check) 100 (moved_to 55 paid order)
      captured_db 60 90 60 200 (record payment { status = "captured" }) check-Reports refl refl refl
      refl refl
