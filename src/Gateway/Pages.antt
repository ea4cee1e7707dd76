-- ===== src/Gateway/Pages.antt =====
-- The pages of `list_products` in fastapi_app/api/v1/catalog.py.
use text.Mathlib.Text.{◌==◌ as str_eq}
use ecommerce.Prelude.{ℕ, ◌≡◌, false, Option, none, String, List, ltb, take, length}
use ecommerce.Catalog.{Product}
use ecommerce.Gateway.{Catalogue, Filters, Sort, PaginatedProducts, before, rows_of}

module _ (isoformat : ℕ → String) (bound : String → Option ℕ) (c : Catalogue) (n : ℕ) (f : Filters)
    (sort : Sort) where
  -- All products that the filters select, in the order that is asked for.
  abbrev pub listing : List Product
  listing = rows_of c f sort (before none)

  -- The first page holds the first products of the listing, as many as a page holds, and all of them
  -- where it gives no cursor.
  abbrev pub IsFirstPage : PaginatedProducts → Type 0
  IsFirstPage page =
      (page.items ≡ take n listing)
      × (page.page_size ≡ n)
      × (ltb n (length listing) ≡ false → (page.next_cursor ≡ none) × (page.items ≡ listing))
