-- ===== src/Gateway.antt =====
-- fastapi_app/api/v1/catalog.py: the listing of products, over the tables that Django's models of
-- django_app/apps/catalog/models.py keep. A time stamp is a number and a cursor a text: how a stamp is
-- written, and what the database driver makes of a text that is bound to a time stamp, are parameters.
-- The columns that are only shown are left out.
pub mod Pages
pub mod Categories
pub mod Security
pub mod Details
pub mod Staleness
pub mod Skus
use text.Mathlib.Text.{◌==◌ as str_eq}
use ecommerce.Prelude.{
  ℕ, suc, ◌+◌, Bool, true, false, ◌&&◌, ◌||◌, Option, none, some, String, List, [], ◌∷◌, ◌==◌, ltb,
  leb, any, filter_by, head?, take, length, if◌then◌else◌,
}
use ecommerce.Prelude.Int.{ℤ, leb_ℤ, ltb_ℤ, min_ℤ}
use ecommerce.Core.Models.{is_null}
use ecommerce.Core.Models.Sorting.{order_by}
use ecommerce.Catalog.{ProductStatus, draft, active, archived, Product, ProductVariant}

pub record Named : Type 0 where
  pub id : ℕ
  pub slug : String

-- `catalog_product_categories` is a list of pairs of keys.
pub record Catalogue : Type 0 where
  pub products : List Product
  pub variants : List ProductVariant
  pub categories : List Named
  pub brands : List Named
  pub product_categories : List (ℕ × ℕ)

-- The filters of the query; an empty text counts as none.
pub record Filters : Type 0 where
  pub category : Option String
  pub brand : Option String
  pub min_price : Option ℤ
  pub max_price : Option ℤ

pub data Sort : Type 0 where
  newest price_asc price_desc popular : Sort

pub record PaginatedProducts : Type 0 where
  pub items : List Product
  pub next_cursor : Option String
  pub page_size : ℕ

abbrev is_active_status : ProductStatus → Bool
is_active_status active = true
is_active_status _ = false

abbrev given : Option String → Option String
given none = none
given (some s) = if str_eq s "" then none else some s

abbrev in_category : Catalogue → Option String → Product → Bool
in_category c none p = true
in_category c (some slug) p =
    any (λ pc. pc.0 == p.id && any (λ k. k.id == pc.1 && str_eq k.slug slug) c.categories)
      c.product_categories

-- A comparison with NULL is not true.
abbrev same_brand : Option ℕ → Option Named → Bool
same_brand (some b) (some k) = b == k.id
same_brand _ _ = false

abbrev of_brand : Catalogue → Option String → Product → Bool
of_brand c none p = true
of_brand c (some slug) p = same_brand p.brand (head? (filter_by (λ k. str_eq k.slug slug) c.brands))

abbrev sells : Catalogue → (ℤ → Bool) → Product → Bool
sells c fits p = any (λ v. v.product == p.id && v.is_active && fits v.price) c.variants

abbrev above : Catalogue → Option ℤ → Product → Bool
above c none p = true
above c (some m) p = sells c (λ x. leb_ℤ m x) p

abbrev below : Catalogue → Option ℤ → Product → Bool
below c none p = true
below c (some m) p = sells c (λ x. leb_ℤ x m) p

-- The WHERE clause, without the cursor.
unfoldable pub selects : Catalogue → Filters → Product → Bool
selects c f p =
    is_active_status p.status
    && is_null p.deleted_at
    && in_category c (given f.category) p
    && of_brand c (given f.brand) p
    && above c f.min_price p
    && below c f.max_price p

abbrev pub before : Option ℕ → Product → Bool
before none p = true
before (some cursor) p = ltb p.created_at cursor

abbrev least : List ProductVariant → Option ℤ
least [] = none
least (v ∷ vs) = elim (least vs) [ none ↦ some v.price | some m ↦ some (min_ℤ v.price m) ]

abbrev min_price_of : Catalogue → Product → Option ℤ
min_price_of c p = least (filter_by (λ v. v.product == p.id && v.is_active) c.variants)

abbrev pub newer : Product → Product → Bool
newer a b = leb b.created_at a.created_at

-- Prices in ascending or in descending order, NULL last, and then the newest first.
abbrev by_price : Bool → Option ℤ → Option ℤ → Bool → Bool
by_price ascending none none tie = tie
by_price ascending none (some y) tie = false
by_price ascending (some x) none tie = true
by_price ascending (some x) (some y) tie =
    (if ascending then ltb_ℤ x y else ltb_ℤ y x) || (leb_ℤ x y && leb_ℤ y x && tie)

-- The ORDER BY clause.
abbrev pub comes_first : Catalogue → Sort → Product → Product → Bool
comes_first c newest a b = newer a b
comes_first c popular a b =
    ltb b.sold_count a.sold_count || (a.sold_count == b.sold_count && newer a b)
comes_first c price_asc a b = by_price true (min_price_of c a) (min_price_of c b) (newer a b)
comes_first c price_desc a b = by_price false (min_price_of c a) (min_price_of c b) (newer a b)

abbrev pub last_of : List Product → Option Product
last_of [] = none
last_of (p ∷ []) = some p
last_of (p ∷ q ∷ rest) = last_of (q ∷ rest)

-- The rows in the order of the listing, with `before` as the condition of the cursor.
unfoldable pub rows_of : Catalogue → Filters → Sort → (Product → Bool) → List Product
unfolding selects
rows_of c f sort fits =
    order_by (comes_first c sort) (filter_by (λ p. selects c f p && fits p) c.products)

module _ (isoformat : ℕ → String) (bound : String → Option ℕ) where
  abbrev pub cursor_of : Option Product → Option String
  cursor_of none = none
  cursor_of (some p) = some (isoformat p.created_at)

  -- The page that is made of the rows, one more than a page holds where there are so many.
  abbrev pub page_of : ℕ → List Product → PaginatedProducts
  page_of page_size rows =
      if ltb page_size (length rows)
      then (record {
        items = take page_size rows;
        next_cursor = cursor_of (last_of (take page_size rows));
        page_size = page_size;
      })
      else (record { items = rows; next_cursor = none; page_size = page_size })

  -- The parameter of the cursor: none where there is no cursor, and where there is one, what the
  -- driver reads in it, or none where it raises.
  abbrev pub binding : Option String → Option (Option ℕ)
  binding none = some none
  binding (some cursor) = elim (bound cursor) [ none ↦ none | some k ↦ some (some k) ]

  abbrev pub executed :
      Catalogue → ℕ → Filters → Sort → Option (Option ℕ) → Option PaginatedProducts
  executed c page_size f sort none = none
  executed c page_size f sort (some cursor) =
      some (page_of page_size (take (suc page_size) (rows_of c f sort (before cursor))))

  -- There is no page where the driver raises.
  unfoldable pub list_products :
      Catalogue → ℕ → Option String → Filters → Sort → Option PaginatedProducts
  list_products c page_size cursor f sort = executed c page_size f sort (binding (given cursor))
