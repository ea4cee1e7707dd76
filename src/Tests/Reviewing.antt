-- ===== src/Tests/Reviewing.antt =====
-- The theorems on product details and reviews, at concrete inputs.
use ecommerce.Prelude.{
  ◌⊎◌, ℕ, ◌≡◌, refl, Bool, true, none, some, String, List, [], ◌∷◌, All, arith, ◌==◌, if◌then◌else◌,
}
use ecommerce.Prelude.Int.{pos}
use ecommerce.Core.Models.{lookup, Distinct}
use ecommerce.Gateway.Details.{
  Shop, ProductDetail, Times, detail_by_slug, product_detail, variant_by_sku,
}
use ecommerce.Gateway.Staleness.{Answers, Details, IsRecent, WasRight, product_detail_lem}
use ecommerce.Gateway.Skus.{shows, variant_by_sku_lem}
use ecommerce.Reviews.{Review, ReviewInput, approved, shown, review_model}
use ecommerce.Reviews.Moderation.{
  Request, creates, updates, destroys, serve_all, IsReview, WasApproved, serve_all-IsReview,
}
use ecommerce.Tests.{user, db, product, variant}

abbrev shop : Shop
shop = record { products = product ∷ []; variants = variant ∷ []; images = []; brands = [] }

abbrev precedes : String → String → Bool
precedes a b = true

-- The shop is empty until the time 10.
abbrev shops : ℕ → Shop
shops s = if s == 10 then shop else record shop { products = [] }

abbrev times : Times
times = record { start = 9; product = 10; variants = 10; images = 11; written = 12 }

product_detail_lem_example :
    let (out, entry') = product_detail precedes (λ d. true) shops times "shirt" none none in
    (Answers precedes shops 5 "shirt" 12 out ⊎ WasRight 30 (Answers precedes shops 5 "shirt") 9 out)
    × IsRecent 30 (Details precedes shops 5 "shirt") 12 entry'
product_detail_lem_example =
    product_detail_lem precedes shops 5 (λ d. true) times "shirt" none none
      (omega arith, omega arith, omega arith, omega arith) (omega arith)
      (λ value expires e. absurd (ground arith)) (λ value expires e. absurd (ground arith))

abbrev shirt : ProductDetail
shirt = record { product = product; brand = none; variants = variant ∷ []; images = [] }

variant_by_sku_lem_example :
    All (λ v. variant_by_sku v.sku shop ≡ shows shirt.product v) shirt.variants
unfolding lookup detail_by_slug ecommerce.Core.Models.Sorting.order_by
variant_by_sku_lem_example =
    variant_by_sku_lem precedes shop (refl, tt) (refl, tt) "shirt" shirt refl

abbrev praise : Review
praise = record {
  id = 1;
  product = 3;
  user = 8;
  order = none;
  rating = pos 5;
  title = "Good";
  body = "";
  status = approved;
  helpful_count = 0;
  created_at = 1;
  deleted_at = none;
}

abbrev input : ReviewInput
input = record { product = 3; order = none; rating = pos 2; title = "Bad"; body = "" }

abbrev requests : List Request
requests = creates 5 2 (some user) input ∷ updates (some user) 1 input ∷ destroys 6 none 1 ∷ []

serve_all-IsReview_example :
    let t = serve_all db requests (praise ∷ []) in
    All (IsReview t) t × All (WasApproved (praise ∷ [])) (shown t)
unfolding lookup
serve_all-IsReview_example =
    serve_all-IsReview (praise ∷ []) db requests (refl, tt) ((refl, refl), tt)
