-- ===== src/Tests/Reporting.antt =====
-- The theorems on the figures of analytics, at concrete inputs.
use ecommerce.Prelude.{
  ℕ, ◌≤◌, ◌<◌, ◌≡◌, refl, inl, true, false, Option, none, some, List, [], ◌∷◌, All, length, any,
  filter_by,
}
use ecommerce.Prelude.Int.{pos, ◌+ℤ◌, ◌≤ℤ◌, total}
use ecommerce.Exec.{ok, is_ok}
use ecommerce.Core.Models.Sorting.{IsSorted}
use ecommerce.Orders.{Order, paid, packed, order_model}
use ecommerce.Orders.Services.{transition_status}
use ecommerce.Database.{Db}
use ecommerce.Analytics.{
  revenue_timeseries, series_orders, grand_total_of, top_products, product_row, product_of,
  same_product, sold_items, quantity_of, revenue_today, day_of, on_day,
}
use ecommerce.Analytics.Series.{IsRow, revenue_timeseries_lem}
use ecommerce.Analytics.Best.{sold_of, top_products_lem}
use ecommerce.Analytics.Revenue.{revenue_today-transition_status}
use ecommerce.Analytics.Rollup.{
  DailySalesSnapshot, of_day, rolled_up, rollup_daily_sales, rollup_daily_sales-twice,
}
use ecommerce.Tests.{order, order_line, variant, ordered_db}

-- An order that was paid for on the second day, and one on the third.
abbrev second : Order
second = record order { status = paid; paid_at = some 90_000 }

abbrev third : Order
third = record order { id = 103; status = paid; paid_at = some 180_000 }

abbrev both : List Order
both = second ∷ third ∷ []

revenue_timeseries_lem_example :
    let out = revenue_timeseries 200_000 30 both in
    All (IsRow both) out
    × IsSorted (λ a b. a.day < b.day) out
    × (total (λ r. r.revenue) out ≡ total grand_total_of (series_orders 200_000 30 both))
revenue_timeseries_lem_example = revenue_timeseries_lem 200_000 30 both

top_products_lem_example :
    let out = top_products 1 200_000 30 (variant ∷ []) both (order_line ∷ []) in
    (length out ≤ 1)
    × All
        (λ r.
          r
          ≡ product_row r.product
              (sold_of 1 200_000 30 (variant ∷ []) both (order_line ∷ []) r.product))
        out
    × IsSorted (λ a b. b.qty ≤ℤ a.qty) out
    × ((k : Option ℕ)
        → any
            (λ i. same_product (product_of (variant ∷ []) i) k)
            (sold_items 200_000 30 both (order_line ∷ []))
          ≡ true
        → any (λ r. same_product k r.product) out ≡ false
        → All
            (λ r.
              total quantity_of (sold_of 1 200_000 30 (variant ∷ []) both (order_line ∷ []) k)
              ≤ℤ r.qty)
            out
          × (length out ≡ 1))
top_products_lem_example = top_products_lem 1 200_000 30 (variant ∷ []) both (order_line ∷ [])

abbrev paid_db : Db
paid_db = record ordered_db { orders = second ∷ [] }

revenue_today-transition_status_example :
    (is_ok (transition_status 95_000 100 paid none "" paid_db).0 ≡ true
      → day_of 95_000 ≡ day_of 95_000
      → revenue_today 95_000 (transition_status 95_000 100 paid none "" paid_db).1.orders
        ≡ revenue_today 95_000 paid_db.orders +ℤ pos 2999)
    × (second.status ≡ paid
        → on_day (day_of 95_000) second.paid_at ≡ true
        → revenue_today 95_000 (transition_status 95_000 100 packed none "" paid_db).1.orders
            +ℤ pos 2999
          ≡ revenue_today 95_000 paid_db.orders)
unfolding ecommerce.Core.Models.lookup ecommerce.Database.get_one ecommerce.Core.Models.alive
revenue_today-transition_status_example =
    revenue_today-transition_status 95_000 100 95_000 none "" paid_db (refl, tt) second refl

rollup_daily_sales-twice_example :
    (s : DailySalesSnapshot) × (t' : List DailySalesSnapshot) × (rollup_daily_sales
        (λ k. 90_000)
        1
        100_000
        (some 1)
        both
        []
      ≡ (ok s, t'))
    × (filter_by (of_day 1) t' ≡ s ∷ [])
    × (s ≡ rolled_up (λ k. 90_000) 1 both s)
    × (rollup_daily_sales (λ k. 90_000) 2 200_000 (some 1) both t' ≡ (ok s, t'))
unfolding ecommerce.Core.Models.lookup
rollup_daily_sales-twice_example =
    rollup_daily_sales-twice (λ k. 90_000) 1 both 1 100_000 2 200_000 [] tt refl (inl refl)
