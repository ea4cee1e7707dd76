-- ===== src/Catalog.antt =====
-- django_app/apps/catalog/models.py: products and their variants, the fields that carts, orders and
-- stock read. Money is in cents. Text that is only copied is a String.
use ecommerce.Prelude.{ℕ, refl, Bool, Option, String}
use ecommerce.Prelude.Int.{ℤ}
use ecommerce.Core.Models.{Model}

pub data ProductStatus : Type 0 where
  draft active archived : ProductStatus

pub record Product : Type 0 where
  pub id : ℕ
  pub name : String
  pub slug : String
  pub brand : Option ℕ
  pub status : ProductStatus
  pub is_featured : Bool
  pub sold_count : ℕ
  pub created_at : ℕ
  pub deleted_at : Option ℕ

pub record ProductVariant : Type 0 where
  pub id : ℕ
  pub product : ℕ
  pub sku : String
  pub name : String
  pub price : ℤ
  pub compare_at_price : Option ℤ
  pub currency : String
  pub is_default : Bool
  pub is_active : Bool
  pub attributes_snapshot : String
  pub deleted_at : Option ℕ

instance abbrev pub product_model : Model Product
product_model = record {
  pk = λ p. p.id;
  deleted_at = λ p. p.deleted_at;
  set_deleted_at = λ d p. record p { deleted_at = d };
  pk-set = λ d p. refl;
  deleted_at-set = λ d p. refl;
  set-set = λ d e p. refl;
  set_self = λ p. refl;
}

instance abbrev pub variant_model : Model ProductVariant
variant_model = record {
  pk = λ v. v.id;
  deleted_at = λ v. v.deleted_at;
  set_deleted_at = λ d v. record v { deleted_at = d };
  pk-set = λ d v. refl;
  deleted_at-set = λ d v. refl;
  set-set = λ d e v. refl;
  set_self = λ v. refl;
}
