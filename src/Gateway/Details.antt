-- ===== src/Gateway/Details.antt =====
-- fastapi_app/api/v1/catalog.py: the brands, a product in full and a variant by its SKU, with the
-- schemas of schemas/catalog.py. The collation of names and whether orjson can write a value are
-- parameters; a cache that fails counts as one without the key.
use text.Mathlib.Text.{◌==◌ as str_eq}
use ecommerce.Prelude.{
  ℕ, ◌+◌, Bool, true, false, not, ◌&&◌, ◌||◌, Option, none, some, String, List, [], ◌∷◌, ◌==◌, ltb,
  head?, filter_by, if◌then◌else◌,
}
use ecommerce.Core.Models.{lookup, is_null}
use ecommerce.Core.Models.Sorting.{order_by}
use ecommerce.Catalog.{active, Product, product_model, ProductVariant}

pub record Brand : Type 0 where
  pub id : ℕ
  pub name : String
  pub slug : String
  pub is_active : Bool

pub record ProductImage : Type 0 where
  pub id : ℕ
  pub product : ℕ
  pub variant : Option ℕ
  pub image : String
  pub alt_text : String
  pub sort_order : ℕ
  pub is_primary : Bool

-- The tables that are read.
pub record Shop : Type 0 where
  pub products : List Product
  pub variants : List ProductVariant
  pub images : List ProductImage
  pub brands : List Brand

pub record ProductDetail : Type 0 where
  pub product : Product
  pub brand : Option Brand
  pub variants : List ProductVariant
  pub images : List ProductImage

-- A variant with the slug and the name of its product.
pub record VariantOut : Type 0 where
  pub variant : ProductVariant
  pub product_slug : String
  pub product_name : String

-- The times of a request: it reads the cache, makes its three queries and writes to the cache.
pub record Times : Type 0 where
  pub start : ℕ
  pub product : ℕ
  pub variants : ℕ
  pub images : ℕ
  pub written : ℕ

-- What Redis has under a key, with the time at which it is forgotten.
abbrev pub Entry : Type 0 → Type 0
Entry A = Option (A × ℕ)

abbrev pub cache_get : {A : Type 0} → ℕ → Entry A → Option A
cache_get now none = none
cache_get now (some (value, expires)) = if ltb now expires then some value else none

abbrev pub cache_set : {A : Type 0} → (A → Bool) → ℕ → A → Entry A → Entry A
cache_set dumps expires value old = if dumps value then some (value, expires) else old

-- An empty list counts as nothing.
abbrev pub unless_empty : {A : Type 0} → Option (List A) → Option (List A)
unless_empty none = none
unless_empty (some []) = none
unless_empty (some (a ∷ rest)) = some (a ∷ rest)

abbrev of_id : Option ℕ → Brand → Bool
of_id none b = false
of_id (some k) b = b.id == k

abbrev pub is_shown : String → Product → Bool
is_shown slug p =
    str_eq p.slug slug && elim p.status [ active ↦ true | _ ↦ false ] && is_null p.deleted_at

abbrev pub is_sold : ℕ → ProductVariant → Bool
is_sold product v = v.product == product && v.is_active

abbrev primary_first : ProductImage → ProductImage → Bool
primary_first a b =
    (a.is_primary && not b.is_primary)
    || ((if a.is_primary then b.is_primary else not b.is_primary) && ltb a.sort_order b.sort_order)

module _ (precedes : String → String → Bool) where
  abbrev pub default_variant_first : ProductVariant → ProductVariant → Bool
  default_variant_first a b =
      (a.is_default && not b.is_default)
      || ((if a.is_default then b.is_default else not b.is_default) && precedes a.name b.name)

  -- The three queries of `product_detail`, each with the tables at its time.
  abbrev pub detail_of : Shop → Shop → Shop → Product → ProductDetail
  detail_of t t' t'' p = record {
    product = p;
    brand = head? (filter_by (of_id p.brand) t.brands);
    variants = order_by default_variant_first (filter_by (is_sold p.id) t'.variants);
    images = order_by primary_first (filter_by (λ i. i.product == p.id) t''.images);
  }

  abbrev pub detail_of_row : Shop → Shop → Shop → Option Product → Option ProductDetail
  detail_of_row t t' t'' none = none
  detail_of_row t t' t'' (some p) = some (detail_of t t' t'' p)

  unfoldable pub detail_at : String → Shop → Shop → Shop → Option ProductDetail
  detail_at slug t t' t'' = detail_of_row t t' t'' (head? (filter_by (is_shown slug) t.products))

  -- The same while the tables do not change.
  unfoldable pub detail_by_slug : String → Shop → Option ProductDetail
  unfolding detail_at
  detail_by_slug slug t = detail_at slug t t t

  abbrev by_name : Brand → Brand → Bool
  by_name a b = precedes a.name b.name

  unfoldable pub active_brands : Shop → List Brand
  active_brands t = order_by by_name (filter_by (λ b. b.is_active) t.brands)

  module _ (dumps : ProductDetail → Bool) where
    -- 404, or the answer, which is kept for 30 seconds from the time of the write on.
    abbrev pub found :
        Times
        → Entry ProductDetail
        → Option ProductDetail
        → Option ProductDetail × Entry ProductDetail
    found times later none = (none, later)
    found times later (some d) = (some d, cache_set dumps (times.written + 30) d later)

    abbrev pub served :
        (ℕ → Shop)
        → Times
        → String
        → Entry ProductDetail
        → Option ProductDetail
        → Option ProductDetail × Entry ProductDetail
    served shop times slug later (some d) = (some d, later)
    served shop times slug later none =
        found times later
          (detail_at slug (shop times.product) (shop times.variants) (shop times.images))

    -- `entry` is what is cached for the slug when the request reads the cache, and `later` what is
    -- cached when it writes to it, since other requests come between.
    unfoldable pub product_detail :
        (ℕ → Shop)
        → Times
        → String
        → Entry ProductDetail
        → Entry ProductDetail
        → Option ProductDetail × Entry ProductDetail
    unfolding detail_at
    product_detail shop times slug entry later =
        served shop times slug later (cache_get times.start entry)

  module _ (dumps : List Brand → Bool) where
    abbrev pub served_brands :
        (ℕ → Shop)
        → ℕ
        → ℕ
        → Entry (List Brand)
        → Option (List Brand)
        → List Brand × Entry (List Brand)
    served_brands shop read written later (some bs) = (bs, later)
    served_brands shop read written later none =
        let bs = active_brands (shop read) in (bs, cache_set dumps (written + 300) bs later)

    unfoldable pub list_brands :
        (ℕ → Shop)
        → ℕ
        → ℕ
        → ℕ
        → Entry (List Brand)
        → Entry (List Brand)
        → List Brand × Entry (List Brand)
    list_brands shop start read written entry later =
        served_brands shop read written later (unless_empty (cache_get start entry))

-- The rows of the join.
abbrev pub with_product : ProductVariant → Option Product → Option VariantOut
with_product v none = none
with_product v (some p) =
    some (record { variant = v; product_slug = p.slug; product_name = p.name })

abbrev pub first_row : List Product → List ProductVariant → Option VariantOut
first_row products [] = none
first_row products (v ∷ vs) = elim (with_product v (lookup v.product products)) [
  | none ↦ first_row products vs
  | some r ↦ some r
]

unfoldable pub variant_by_sku : String → Shop → Option VariantOut
variant_by_sku sku t =
    first_row t.products (filter_by (λ v. str_eq v.sku sku && v.is_active) t.variants)
