-- ===== src/Gateway/Skus.antt =====
-- The variants of `product_detail` and `variant_by_sku` of fastapi_app/api/v1/catalog.py.
use text.Mathlib.Text.{◌==◌ as str_eq}
use text.Mathlib.TextPositions.{eq_refl}
use text.Mathlib.TextEquality.{eq_iff}
use ecommerce.Prelude.{
  ◌≡◌, refl, sym, ap, ◌∙◌, inl, inr, Bool, true, false, ◌&&◌, Option, none, some, String, List, [],
  ◌∷◌, ◌==◌, any, filter_by, head?, arith, All, if◌then◌else◌, Bool-cases, &&-eq_true,
}
use ecommerce.Core.Models.{lookup, Distinct, IsStored}
use ecommerce.Core.Models.Rows.{filter-IsStored}
use ecommerce.Core.Models.Sorting.{order_by-All}
use ecommerce.Catalog.{Product, product_model, ProductVariant}
use ecommerce.Gateway.Details.{
  Shop, ProductDetail, VariantOut, is_shown, is_sold, default_variant_first, detail_of,
  detail_of_row, detail_by_slug, detail_at, with_product, first_row, variant_by_sku,
}

-- The unique constraint on `sku`.
abbrev pub SkusDistinct : List ProductVariant → Type 0
SkusDistinct [] = Unit
SkusDistinct (v ∷ vs) = (any (λ w. str_eq v.sku w.sku) vs ≡ false) × SkusDistinct vs

str_eq_sym : (a b : String) → str_eq a b ≡ false → str_eq b a ≡ false
str_eq_sym a b h = elim (Bool-cases (str_eq b a)) [
  | inl e ↦ absurd (ground (arith, ap (λ x. str_eq x b) (sym ((eq_iff b a).0 e)), eq_refl b, h))
  | inr e ↦ e
]

abbrev has_sku : String → ProductVariant → Bool
has_sku sku v = str_eq v.sku sku && v.is_active

none-has_sku :
    (v : ProductVariant) (vs : List ProductVariant)
    → any (λ w. str_eq v.sku w.sku) vs ≡ false
    → filter_by (has_sku v.sku) vs ≡ []
none-has_sku v [] h = refl
none-has_sku v (w ∷ vs) h =
    let other : str_eq v.sku w.sku ≡ false = ground arith in
    let rest : any (λ w. str_eq v.sku w.sku) vs ≡ false = ground arith in
    rw (str_eq_sym v.sku w.sku other) (none-has_sku v vs rest)

abbrev IsOnly : List ProductVariant → ProductVariant → Type 0
IsOnly vs v = v.is_active ≡ true → filter_by (has_sku v.sku) vs ≡ v ∷ []

IsOnly-cons :
    (v : ProductVariant) (vs rows : List ProductVariant)
    → any (λ w. str_eq v.sku w.sku) rows ≡ false
    → All (IsOnly vs) rows
    → All (IsOnly (v ∷ vs)) rows
IsOnly-cons v vs [] h only = tt
IsOnly-cons v vs (w ∷ rows) h only =
    let other : str_eq v.sku w.sku ≡ false = ground arith in
    let rest : any (λ w. str_eq v.sku w.sku) rows ≡ false = ground arith in
    ((λ live. rw other (only.0 live)), IsOnly-cons v vs rows rest only.1)

keep_first :
    (b : Bool) (v : ProductVariant) (rest : List ProductVariant)
    → b ≡ true
    → rest ≡ []
    → (if b then v ∷ rest else rest) ≡ v ∷ []
keep_first true v rest h empty = ap (λ r. v ∷ r) empty
keep_first false v rest h empty = absurd (ground arith)

all-IsOnly : (vs : List ProductVariant) → SkusDistinct vs → All (IsOnly vs) vs
all-IsOnly [] h = tt
all-IsOnly (v ∷ vs) h = (
  (λ live.
      keep_first (str_eq v.sku v.sku && v.is_active) v (filter_by (has_sku v.sku) vs)
        (ground (arith, eq_refl v.sku)) (none-has_sku v vs h.0)),
  IsOnly-cons v vs vs h.0 (all-IsOnly vs h.1),
)

-- What `variant_by_sku` is to answer for a variant of a product.
abbrev pub shows : Product → ProductVariant → Option VariantOut
shows p v = some (record { variant = v; product_slug = p.slug; product_name = p.name })

row_lem :
    (p : Product) (v : ProductVariant) (o : Option Product)
    → o ≡ some p
    → (elim (with_product v o) [ none ↦ none | some r ↦ some r ]) ≡ shows p v
row_lem p v none h = absurd (ground arith)
row_lem p v (some q) h = ground arith

module _ (precedes : String → String → Bool) (t : Shop) (skus : SkusDistinct t.variants)
    (ids : Distinct t.products) where
  abbrev IsFound : Product → ProductVariant → Type 0
  IsFound p v = variant_by_sku v.sku t ≡ shows p v

  IsFound-alone :
      (p : Product) (v : ProductVariant)
      → lookup p.id t.products ≡ some p
      → is_sold p.id v ≡ true
      → IsOnly t.variants v
      → IsFound p v
  unfolding variant_by_sku
  IsFound-alone p v stored sold only =
      let parts = &&-eq_true (v.product == p.id) v.is_active sold in
      let key : v.product ≡ p.id = ground (arith, parts.0) in
      ap (first_row t.products) (only parts.1)
      ∙ row_lem p v (lookup v.product t.products) (ap (λ k. lookup k t.products) key ∙ stored)

  all-IsFound :
      (p : Product) (vs : List ProductVariant)
      → lookup p.id t.products ≡ some p
      → All (IsOnly t.variants) vs
      → All (IsFound p) (filter_by (is_sold p.id) vs)
  all-IsFound p [] stored only = tt
  all-IsFound p (v ∷ vs) stored only =
      let rest = all-IsFound p vs stored only.1 in
      elim (Bool-cases (is_sold p.id v)) [
        | inl e ↦ rw e (IsFound-alone p v stored e only.0, rest)
        | inr e ↦ rw e rest
      ]

  carried :
      (d d' : ProductDetail)
      → d ≡ d'
      → All (IsFound d.product) d.variants
      → All (IsFound d'.product) d'.variants
  carried d d' e all = rw e at all

  of_rows :
      (d : ProductDetail) (rows : List Product)
      → All (IsStored t.products) rows
      → detail_of_row precedes t t t (head? rows) ≡ some d
      → All (IsFound d.product) d.variants
  of_rows d [] stored e = absurd (ground arith)
  of_rows d (p ∷ rows) stored e =
      let same : detail_of precedes t t t p ≡ d = ground arith in
      let all : All (IsFound p) (detail_of precedes t t t p).variants =
        order_by-All (IsFound p) (default_variant_first precedes)
          (filter_by (is_sold p.id) t.variants)
          (all-IsFound p t.variants stored.0 (all-IsOnly t.variants skus)) in
      carried (detail_of precedes t t t p) d same all

  -- Where no SKU is used twice and no two products have one key: every variant that is listed with a
  -- product is found by its SKU, as that product lists it and with that product's slug and name.
  pub variant_by_sku_lem :
      (slug : String) (d : ProductDetail)
      → detail_by_slug precedes slug t ≡ some d
      → All (λ v. variant_by_sku v.sku t ≡ shows d.product v) d.variants
  unfolding detail_by_slug detail_at
  variant_by_sku_lem slug d e =
      of_rows d (filter_by (is_shown slug) t.products)
        (filter-IsStored (is_shown slug) t.products ids) e
