-- ===== src/Tests/Requesting.antt =====
-- The theorems on the views and on new payments, at concrete inputs.
use ecommerce.Prelude.{[], ◌∷◌, ◌≡◌, refl, ◌⊎◌, ℕ, Option, none, some, String}
use ecommerce.Prelude.Int.{pos}
use ecommerce.Exec.{Returns, is_ok}
use ecommerce.Core.Models.{lookup}
use ecommerce.Core.Permissions.{User}
use ecommerce.Orders.{order_model}
use ecommerce.Cart.{Cart, cart_item_model, cart_model}
use ecommerce.Database.{Db}
use ecommerce.Payments.{payment_model}
use ecommerce.Payments.Json.{Value, dict, end}
use ecommerce.Payments.Providers.{ChargeIntent, get_provider}
use ecommerce.Payments.Services.{create_payment, intent_of}
use ecommerce.Payments.Charging.{Charged, is_answered, create_payment-Returns}
use ecommerce.Api.{
  Exception, http404, forbidden, denied, api, service, Response, api_exception_handler,
}
use ecommerce.Api.Carts.{Caller, add}
use ecommerce.Api.Errors.{Documented, status_of, body_of, api_exception_handler_lem}
use ecommerce.Api.Adding.{IsAdded, IsRefusal, OnlyCarts, add_lem}
use ecommerce.Api.Selling.{cancel, create_for_order}
use ecommerce.Api.Owners.{Spared, cancel_others, create_for_order_others}
use ecommerce.Tests.{user, cart, line, db, order, ordered_db}
use ecommerce.Tests.Paying.{registry}

abbrev handler : Exception → Option ℕ
handler http404 = some 404
handler forbidden = some 403
handler denied = some 403
handler (api status code) = some status
handler (service e) = none

handler-Documented : Documented handler
handler-Documented = record {
  of_http404 = refl;
  of_forbidden = refl;
  of_denied = refl;
  of_api = λ status code. refl;
  of_service = λ e. refl;
}

api_exception_handler_lem_example :
    let r : Response ℕ = api_exception_handler handler (api 429 "throttled") in
    (r.status ≡ status_of (api 429 "throttled")) × (r.body ≡ body_of (api 429 "throttled"))
api_exception_handler_lem_example =
    api_exception_handler_lem handler handler-Documented (api 429 "throttled")

-- The owner of the cart, with a session.
abbrev caller : Caller
caller = record { user = some user; session_key = "s"; new_session_key = "t" }

add_lem_example :
    IsAdded 90 caller 7 (pos 2) db (add 90 caller 7 (pos 2) db)
    ⊎ (IsRefusal (add 90 caller 7 (pos 2) db).0 × OnlyCarts db (add 90 caller 7 (pos 2) db).1)
unfolding lookup
add_lem_example = add_lem 90 caller 7 (pos 2) db (refl, tt) refl

-- Another user, with neither mark.
abbrev stranger : User
stranger = record user { id = 8 }

cancel_others_example : lookup 100 (cancel 60 stranger 100 ordered_db).1.orders ≡ some order
unfolding lookup
cancel_others_example =
    cancel_others stranger (refl, refl) ordered_db (refl, tt) 100 order refl refl 60 100

abbrev text_of : ℕ → String
text_of n = "100"

abbrev asdict : ChargeIntent → Value
asdict i = dict end

create_for_order_others_example :
    Spared 201 100 order ordered_db
      (create_for_order registry text_of asdict 60 201 stranger 100 "manual" "" "" ordered_db).1
unfolding lookup
create_for_order_others_example =
    create_for_order_others stranger (refl, refl) ordered_db (refl, tt) 100 order refl refl registry
      text_of asdict 60 201 100 "manual" "" "" refl

create_payment-Returns_example :
    let p = create_payment registry text_of asdict 60 201 order "manual" "" "" ordered_db in
    (is_ok p.0 ≡ is_answered (get_provider registry "manual") (intent_of text_of order "" ""))
    × Returns ordered_db (Charged 201 order "manual" ordered_db) p
unfolding lookup
create_payment-Returns_example =
    create_payment-Returns registry text_of asdict 60 201 order "manual" "" "" ordered_db refl

-- A guest has two more of the user's shirts.
abbrev guest_cart : Cart
guest_cart = record cart { id = 6; user = none; session_key = "s" }

abbrev guest_db : Db
guest_db = record db {
  carts = cart ∷ guest_cart ∷ [];
  cart_items = line ∷ record line { id = 61; cart = 6; quantity = pos 2 } ∷ [];
}
