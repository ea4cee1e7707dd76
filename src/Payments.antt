-- ===== src/Payments.antt =====
-- django_app/apps/payments/models.py: payments. A status is the text that the column holds, since a
-- webhook's result writes its own text there.
pub mod Json
pub mod Providers
pub mod Services
pub mod Webhooks
pub mod Redelivery
pub mod Expiry
pub mod Charging
use ecommerce.Prelude.{ℕ, ◌≡◌, refl, Option, String}
use ecommerce.Prelude.Int.{ℤ}
use ecommerce.Core.Models.{Model}
use ecommerce.Payments.Json.{Value}

pub record Payment : Type 0 where
  pub id : ℕ
  pub order : ℕ
  pub provider : String
  pub status : String
  pub amount : ℤ
  pub currency : String
  pub provider_reference : String
  pub provider_intent_id : String
  pub redirect_url : String
  pub raw_request : Value
  pub raw_response : Value
  pub error : Value
  pub created_at : ℕ
  pub deleted_at : Option ℕ

instance abbrev pub payment_model : Model Payment
payment_model = record {
  pk = λ p. p.id;
  deleted_at = λ p. p.deleted_at;
  set_deleted_at = λ d p. record p { deleted_at = d };
  pk-set = λ d p. refl;
  deleted_at-set = λ d p. refl;
  set-set = λ d e p. refl;
  set_self = λ p. refl;
}
