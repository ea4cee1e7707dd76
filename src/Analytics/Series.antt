-- ===== src/Analytics/Series.antt =====
-- The series of the revenue by day: `revenue_timeseries` of django_app/apps/analytics/services.py.
use ecommerce.Prelude.{
  ℕ, ◌≤◌, ◌<◌, ◌≡◌, ◌≢◌, refl, sym, ap, ◌∙◌, Bool, true, false, ◌&&◌, Option, none, some, List, [],
  ◌∷◌, arith, any, map, length, All, All-map, filter_by-All, filter_by-filter_by, filter_by_ext,
  All-map_list,
}
use ecommerce.Prelude.Int.{total}
use ecommerce.Core.Models.{alive}
use ecommerce.Core.Models.Sorting.{order_by-All, total-order_by, IsSorted, order_by-IsSorted}
use ecommerce.Orders.{Order, order_model}
use ecommerce.Analytics.Grouping.{keys_of, with_key, group, total-group, Once, keys_of-Once}
use ecommerce.Analytics.{
  day_of, days_before, on_day, from_day, is_paid, grand_total_of, paid_on, DayRow, paid_day,
  day_row, earlier_day, series_orders, same_day, revenue_timeseries,
}

same_day_sound : (a b : ℕ) → same_day a b ≡ true → a ≡ b
same_day_sound a b h = ground arith

same_day_refl : (a : ℕ) → same_day a a ≡ true
same_day_refl a = ground arith

-- The row says what the paid orders of its day come to.
abbrev pub IsRow : List Order → DayRow → Type 0
IsRow orders r =
    (r.revenue ≡ total grand_total_of (paid_on r.day orders))
    × (r.orders ≡ length (paid_on r.day orders))

keys_of-All :
    (P : ℕ → Type 0) (xs : List Order)
    → All (λ o. P (paid_day o)) xs
    → All P (keys_of same_day paid_day xs)
keys_of-All P [] h = tt
keys_of-All P (o ∷ xs) h = ground (arith, keys_of-All P xs h.1)

in_window :
    (since day : ℕ) (b : Bool) (p : Option ℕ)
    → since ≤ day
    → ((b && from_day since p) && same_day (elim p [ none ↦ 0 | some t ↦ day_of t ]) day)
      ≡ (b && on_day day p)
in_window since day b none h = ground arith
in_window since day b (some t) h = ground arith

-- The orders of the series on a day of its window are all that were paid for on that day.
series-day :
    (now days day : ℕ) (t : List Order)
    → day_of (days_before now days) ≤ day
    → with_key same_day paid_day (series_orders now days t) day ≡ paid_on day t
unfolding paid_on
series-day now days day t h =
    let since = day_of (days_before now days) in
    let p : Order → Bool = λ o. is_paid o && from_day since o.paid_at in
    let q : Order → Bool = λ o. same_day (paid_day o) day in
    filter_by-filter_by p q (alive t)
    ∙ filter_by_ext (λ o. p o && q o) (λ o. is_paid o && on_day day o.paid_at) (alive t)
        (λ o. in_window since day (is_paid o) o.paid_at h)

in_series :
    (since : ℕ) (b : Bool) (p : Option ℕ)
    → (b && from_day since p) ≡ true
    → since ≤ elim p [ none ↦ 0 | some t ↦ day_of t ]
in_series since b none h = ground arith
in_series since b (some t) h = ground arith

-- The rows of the series, before they are put in order.
rows : ℕ → ℕ → List Order → List DayRow
rows now days t = group same_day paid_day day_row (series_orders now days t)

module _ (now days : ℕ) (t : List Order) where
  series-window :
      All
        (λ day. day_of (days_before now days) ≤ day)
        (keys_of same_day paid_day (series_orders now days t))
  series-window =
      let since = day_of (days_before now days) in
      let p : Order → Bool = λ o. is_paid o && from_day since o.paid_at in
      keys_of-All (λ day. since ≤ day) (series_orders now days t)
        (All-map (λ o. p o ≡ true) (λ o. since ≤ paid_day o)
          (λ o h. in_series since (is_paid o) o.paid_at h) (series_orders now days t)
          (filter_by-All p (alive t)))

  day-IsRow :
      (day : ℕ)
      → day_of (days_before now days) ≤ day
      → IsRow t (day_row day (with_key same_day paid_day (series_orders now days t) day))
  day-IsRow day h =
      let e = series-day now days day t h in (ap (total grand_total_of) e, ap length e)

  rows-IsRow : All (IsRow t) (rows now days t)
  unfolding rows group
  rows-IsRow =
      let f : ℕ → DayRow =
        λ day. day_row day (with_key same_day paid_day (series_orders now days t) day) in
      let ks : List ℕ = keys_of same_day paid_day (series_orders now days t) in
      All-map_list (IsRow t) f ks (
        All-map (λ day. day_of (days_before now days) ≤ day) (λ day. IsRow t (f day))
          (λ day h. day-IsRow day h) ks series-window)

  -- Different days.
  not_any : (k : ℕ) (ks : List ℕ) → any (same_day k) ks ≡ false → All (λ l. k ≢ l) ks
  not_any k [] h = tt
  not_any k (l ∷ ks) h = (λ e. ground arith, not_any k ks (ground arith))

  Once-IsSorted :
      (f : ℕ → DayRow) (ks : List ℕ)
      → ((k : ℕ) → (f k).day ≡ k)
      → Once same_day paid_day ks
      → IsSorted (λ a b. a.day ≢ b.day) (map f ks)
  Once-IsSorted f [] h o = tt
  Once-IsSorted f (k ∷ ks) h o = (
    All-map_list (λ b. (f k).day ≢ b.day) f ks
        (All-map (λ l. k ≢ l) (λ l. (f k).day ≢ (f l).day) (λ l n e. n (sym (h k) ∙ e ∙ h l)) ks
          (not_any k ks o.0)),
    Once-IsSorted f ks h o.1,
  )

  -- The rows of the series are of different days, in the order of the days, so no day has two rows. A
  -- row says how many orders that are paid were paid for on its day and what they come to, and the
  -- rows together come to all paid orders of the window.
  pub revenue_timeseries_lem :
      let out = revenue_timeseries now days t in
      All (IsRow t) out
      × IsSorted (λ a b. a.day < b.day) out
      × (total (λ r. r.revenue) out ≡ total grand_total_of (series_orders now days t))
  unfolding revenue_timeseries rows
  revenue_timeseries_lem = (
    order_by-All (IsRow t) earlier_day (rows now days t) rows-IsRow,
    order_by-IsSorted (λ a b. a.day ≢ b.day) (λ a b. a.day < b.day) earlier_day
        (λ a b d e. ground arith) (λ a b d e. ground arith) (λ a b c h k. omega (arith, h, k))
        (rows now days t)
        (Once-IsSorted _ _ (λ k. refl) (keys_of-Once same_day paid_day (series_orders now days t))),
    total-order_by (λ r. r.revenue) earlier_day (rows now days t)
        ∙ total-group same_day paid_day same_day_sound same_day_refl day_row (λ r. r.revenue)
            grand_total_of (λ k ys. refl) (series_orders now days t),
  )
