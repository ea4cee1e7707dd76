-- ===== src/Payments/Providers.antt =====
-- django_app/apps/payments/providers: the contract of a payment provider (base.py), the registry, and
-- what each provider makes of a webhook. A webhook's body is taken after the standard library has
-- decoded it, with a missing key read as the default that the code gives.
use text.Mathlib.Text.{◌==◌ as str_eq}
use ecommerce.Prelude.{
  ℕ, Bool, true, false, ◌&&◌, ◌||◌, not, Option, none, some, String, List, [], ◌∷◌, ◌++◌,
  if◌then◌else◌,
}
use ecommerce.Prelude.Int.{ℤ, pos, leb_ℤ}
use ecommerce.Exec.{Result, ok}
use ecommerce.Payments.Json.{Value, end, dict}

pub record ChargeIntent : Type 0 where
  pub order_id : ℕ
  pub order_number : String
  pub amount : ℤ
  pub currency : String
  pub customer_email : String
  pub success_url : String
  pub cancel_url : String
  pub metadata : Value

pub record ChargeResult : Type 0 where
  pub success : Bool
  pub provider_reference : String
  pub redirect_url : String
  pub intent_id : String
  pub raw : Value
  pub error : String

-- The text in which a webhook names an order: empty, a key, or no UUID.
pub data OrderRef : Type 0 where
  missing : OrderRef
  key : ℕ → OrderRef
  malformed : OrderRef

pub record WebhookResult : Type 0 where
  pub accepted : Bool
  pub event_type : String
  pub order_id : OrderRef
  pub payment_reference : String
  pub new_status : String
  pub raw : Value
  pub error : String

-- `BasePaymentProvider`; `Request` is a webhook's headers and body. A charge may raise: PayPal's does
-- when its second request fails or is answered with no JSON.
pub record Provider (Request : Type 0) : Type 0 where
  pub create_charge : ChargeIntent → Result ChargeResult
  pub parse_webhook : Request → WebhookResult

-- `REGISTRY`
pub record Registry (Request : Type 0) : Type 0 where
  pub stripe : Provider Request
  pub paypal : Provider Request
  pub click : Provider Request
  pub payme : Provider Request
  pub manual : Provider Request

unfoldable pub get_provider :
    {Request : Type 0} → Registry Request → String → Option (Provider Request)
get_provider registry name =
    if str_eq name "stripe"
    then some registry.stripe
    else if str_eq name "paypal"
    then some registry.paypal
    else if str_eq name "click"
    then some registry.click
    else if str_eq name "payme"
    then some registry.payme
    else if str_eq name "manual"
    then some registry.manual
    else none

abbrev pub rejected : String → Value → WebhookResult
rejected error raw = record {
  accepted = false;
  event_type = "";
  order_id = missing;
  payment_reference = "";
  new_status = "";
  raw = raw;
  error = error;
}

abbrev pub accepted_event : String → OrderRef → String → String → Value → WebhookResult
accepted_event event_type order_id reference new_status raw = record {
  accepted = true;
  event_type = event_type;
  order_id = order_id;
  payment_reference = reference;
  new_status = new_status;
  raw = raw;
  error = "";
}

-- A Stripe event: its type, and of its object the id and the order's key in its metadata.
pub record StripeEvent : Type 0 where
  pub type_ : String
  pub id : String
  pub order_id : OrderRef
  pub data_ : Value

-- `StripeProvider._map_event`
unfoldable pub map_event : StripeEvent → WebhookResult
map_event e =
    if str_eq e.type_ "checkout.session.completed" || str_eq e.type_ "payment_intent.succeeded"
    then accepted_event e.type_ e.order_id e.id "captured" e.data_
    else if str_eq e.type_ "payment_intent.payment_failed"
        || str_eq e.type_ "checkout.session.expired"
    then accepted_event e.type_ e.order_id e.id "failed" e.data_
    else if str_eq e.type_ "charge.refunded" || str_eq e.type_ "refund.created"
    then accepted_event e.type_ e.order_id e.id "refunded" e.data_
    else accepted_event e.type_ missing "" "" e.data_

-- A PayPal notification: its type, its resource's id, and the `reference_id` of each purchase unit,
-- `missing` where it is absent or empty.
pub record PaypalEvent : Type 0 where
  pub event_type : String
  pub id : String
  pub reference_ids : List OrderRef
  pub payload : Value

abbrev pub first_reference : List OrderRef → OrderRef
first_reference [] = missing
first_reference (missing ∷ rest) = first_reference rest
first_reference (key k ∷ rest) = key k
first_reference (malformed ∷ rest) = malformed

abbrev pub paypal_status : String → String
paypal_status type_ =
    if str_eq type_ "PAYMENT.CAPTURE.COMPLETED" || str_eq type_ "CHECKOUT.ORDER.APPROVED"
    then "captured"
    else if str_eq type_ "PAYMENT.CAPTURE.DENIED" || str_eq type_ "PAYMENT.CAPTURE.REVERSED"
    then "failed"
    else if str_eq type_ "PAYMENT.CAPTURE.REFUNDED"
    then "refunded"
    else ""

-- What reading a body gives: the decoded text, or the message of an error.
pub data Decoded (A : Type 0) : Type 0 where
  undecodable : String → Decoded A
  decoded : A → Decoded A

-- `PayPalProvider.parse_webhook`
unfoldable pub parse_paypal : String → Decoded PaypalEvent → WebhookResult
parse_paypal client_id body =
    if str_eq client_id "" then rejected "paypal not configured" (dict end) else elim body [
      | undecodable why ↦ rejected why (dict end)
      | decoded e ↦
          accepted_event e.event_type (first_reference e.reference_ids) e.id
            (paypal_status e.event_type) e.payload
    ]

-- A Payme call: its method, the id of its parameters, and the order's key in their account.
pub record PaymeCall : Type 0 where
  pub method : String
  pub id : String
  pub order_id : OrderRef
  pub payload : Value

-- `PaymeProvider._verify_basic_auth`: the user and the password that the header holds, if it is a
-- basic authorization that can be decoded.
unfoldable pub verify_basic_auth : String → Option (String × String) → Bool
verify_basic_auth secret_key none = false
verify_basic_auth secret_key (some (user, password)) =
    str_eq user "Paycom" && str_eq password secret_key

abbrev pub payme_status : String → String
payme_status method =
    if str_eq method "PerformTransaction"
    then "captured"
    else if str_eq method "CreateTransaction"
    then "authorized"
    else if str_eq method "CancelTransaction"
    then "cancelled"
    else ""

-- `PaymeProvider.parse_webhook`
unfoldable pub parse_payme : String → Option (String × String) → Decoded PaymeCall → WebhookResult
unfolding verify_basic_auth
parse_payme secret_key auth body =
    if not (verify_basic_auth secret_key auth)
    then rejected "basic auth failed" (dict end)
    else elim body [
      | undecodable why ↦ rejected why (dict end)
      | decoded c ↦ accepted_event c.method c.order_id c.id (payme_status c.method) c.payload
    ]

-- The form that Click posts. The action is `int` of its text: none if that is no number.
pub record ClickForm : Type 0 where
  pub click_trans_id : String
  pub service_id : String
  pub merchant_trans_id : String
  pub merchant_prepare_id : String
  pub amount : String
  pub action : Option ℤ
  pub sign_time : String
  pub sign_string : String
  pub params : Value

abbrev is_int : ℤ → ℕ → Bool
is_int x n = leb_ℤ x (pos n) && leb_ℤ (pos n) x

module _ (md5 lower : String → String) (join : List String → String) (text_of : ℤ → String) where
  -- `ClickProvider._expected_sign`: the MD5 digest of the parts' concatenation.
  unfoldable pub expected_sign : String → ClickForm → ℤ → String
  expected_sign secret_key p action = md5 (
      join (
        p.click_trans_id
          ∷ p.service_id
          ∷ secret_key
          ∷ p.merchant_trans_id
          ∷ (if is_int action 1 then p.merchant_prepare_id ∷ [] else [])
        ++ p.amount ∷ text_of action ∷ p.sign_time ∷ []))

  abbrev pub click_status : ℤ → String
  click_status action =
      if is_int action 0 then "authorized" else if is_int action 1 then "captured" else ""

  -- `ClickProvider.parse_webhook`
  unfoldable pub parse_click : String → (ℤ → String) → ClickForm → WebhookResult
  unfolding expected_sign
  parse_click secret_key event_type p = elim p.action [
    | none ↦ rejected "bad action" (dict end)
    | some action ↦
        if not (str_eq (lower (expected_sign secret_key p action)) (lower p.sign_string))
        then rejected "signature mismatch" p.params
        else accepted_event (event_type action) missing p.merchant_trans_id (click_status action)
            p.params
  ]

-- `ManualProvider`
unfoldable pub manual_charge : (ℕ → String) → ChargeIntent → Result ChargeResult
manual_charge reference intent = ok (record {
  success = true;
  provider_reference = reference intent.order_id;
  redirect_url = "";
  intent_id = "";
  raw = dict end;
  error = "";
})

unfoldable pub parse_manual : WebhookResult
parse_manual = rejected "no webhook for manual provider" (dict end)
