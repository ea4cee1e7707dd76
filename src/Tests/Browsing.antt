-- ===== src/Tests/Browsing.antt =====
-- The theorems on the gateway's catalogue, at concrete inputs.
use ecommerce.Prelude.{ℕ, Option, none, String, [], ◌∷◌}
use ecommerce.Catalog.{Product}
use ecommerce.Gateway.{Catalogue, Filters}
use ecommerce.Tests.{product, variant}

abbrev made_at : ℕ → Product
made_at t = record product { id = t; created_at = t }

abbrev catalogue : Catalogue
catalogue = record {
  products = made_at 2 ∷ made_at 5 ∷ made_at 3 ∷ [];
  variants = variant ∷ [];
  categories = [];
  brands = [];
  product_categories = [];
}

abbrev no_filters : Filters
no_filters = record { category = none; brand = none; min_price = none; max_price = none }

abbrev isoformat : ℕ → String
isoformat k = "2024-01-01T00:00:00+00:00"

abbrev bound : String → Option ℕ
bound s = none
