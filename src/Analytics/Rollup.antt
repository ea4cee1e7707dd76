-- ===== src/Analytics/Rollup.antt =====
-- The daily snapshot of django_app/apps/analytics/tasks.py, into the table of models.py.
use ecommerce.Prelude.{
  ℕ, ◌≡◌, ◌⊎◌, inl, inr, arith, filter_by-All, ◌-◌, refl, Bool, true, ◌&&◌, Option, none, some,
  List, [], ◌∷◌, ◌++◌, ◌==◌, if◌then◌else◌, filter_by, any,
}
use ecommerce.Prelude.Int.{ℤ, pos, total}
use ecommerce.Exec.{Exec, Result, ok, err, integrity_error, multiple_objects}
use ecommerce.Core.Models.{Model, is_alive, save, lookup}
use ecommerce.Inventory.{stock_model}
use ecommerce.Catalog.{variant_model}
use ecommerce.Cart.{cart_model}
use ecommerce.Orders.{Order, order_model, order_item_model}
use ecommerce.Core.Models.{Distinct, IsStored}
use ecommerce.Core.Models.Rows.{filter-IsStored, append-Distinct, save-Distinct}
use ecommerce.Core.Models.Filtering.{
  filter-append_yes, any-filter_none, filter-save_yes, save-stored,
}
use ecommerce.Analytics.{day_of, is_paid, grand_total_of, average, created_on, counts}

pub record DailySalesSnapshot : Type 0 where
  pub id : ℕ
  pub day : ℕ
  pub orders_count : ℕ
  pub paid_orders_count : ℕ
  pub cancelled_orders_count : ℕ
  pub revenue : ℤ
  pub average_order_value : ℤ
  pub deleted_at : Option ℕ

instance abbrev pub snapshot_model : Model DailySalesSnapshot
snapshot_model = record {
  pk = λ s. s.id;
  deleted_at = λ s. s.deleted_at;
  set_deleted_at = λ d s. record s { deleted_at = d };
  pk-set = λ d s. refl;
  deleted_at-set = λ d s. refl;
  set-set = λ d e s. refl;
  set_self = λ s. refl;
}

-- The values that the rollup of a day writes, over those of a row.
abbrev pub rolled_up : (ℕ → ℕ) → ℕ → List Order → DailySalesSnapshot → DailySalesSnapshot
rolled_up created_at target orders s =
    let qs = created_on created_at target orders in
    let paid_ones = filter_by is_paid qs in
    let c = counts qs in
    record s {
      orders_count = c.all_orders;
      paid_orders_count = c.paid_orders;
      cancelled_orders_count = c.cancelled_orders;
      revenue = total grand_total_of paid_ones;
      average_order_value = average grand_total_of paid_ones;
    }

abbrev pub new_snapshot : ℕ → ℕ → DailySalesSnapshot
new_snapshot id day = record {
  id = id;
  day = day;
  orders_count = 0;
  paid_orders_count = 0;
  cancelled_orders_count = 0;
  revenue = pos 0;
  average_order_value = pos 0;
  deleted_at = none;
}

abbrev pub of_day : ℕ → DailySalesSnapshot → Bool
of_day day s = is_alive s && s.day == day

abbrev pub has_day : ℕ → DailySalesSnapshot → Bool
has_day day s = s.day == day

-- `update_or_create`, by the living rows of the day. The unique day counts hidden rows.
abbrev pub write_snapshot :
    (DailySalesSnapshot → DailySalesSnapshot)
    → DailySalesSnapshot
    → List DailySalesSnapshot
    → List DailySalesSnapshot
    → Result DailySalesSnapshot × List DailySalesSnapshot
write_snapshot f new t [] =
    if any (has_day new.day) t then (err integrity_error, t) else (ok (f new), t ++ f new ∷ [])
write_snapshot f new t (s ∷ []) = (ok (f s), save (f s) t)
write_snapshot f new t (s ∷ s' ∷ rest) = (err multiple_objects, t)

-- The rollup of a day; without one it is the day before `now`.
unfoldable pub rollup_daily_sales :
    (ℕ → ℕ) → ℕ → ℕ → Option ℕ → List Order → Exec (List DailySalesSnapshot) DailySalesSnapshot
rollup_daily_sales created_at id now day orders t =
    let target : ℕ = elim day [ none ↦ day_of now - 1 | some d ↦ d ] in
    write_snapshot (rolled_up created_at target orders) (new_snapshot id target) t
      (filter_by (of_day target) t)

-- The table has no row for the day, or one living row.
abbrev pub HasRoom : ℕ → List DailySalesSnapshot → Type 0
HasRoom day t =
    (filter_by (has_day day) t ≡ [])
    ⊎ ((s : DailySalesSnapshot) × (filter_by (of_day day) t ≡ s ∷ []))

of_day-none :
    (day : ℕ) (t : List DailySalesSnapshot)
    → filter_by (has_day day) t ≡ []
    → filter_by (of_day day) t ≡ []
of_day-none day [] h = refl
of_day-none day (s ∷ t) h = ground (arith, of_day-none day t)

of_day_self :
    (day : ℕ) (s : DailySalesSnapshot) → s.deleted_at ≡ none → s.day ≡ day → of_day day s ≡ true
of_day_self day s h k = ground arith

module _ (created_at : ℕ → ℕ) (day : ℕ) (orders : List Order) where
  -- What a table comes to for a day that is rolled up.
  abbrev IsRolledUp : ℕ → ℕ → Result DailySalesSnapshot × List DailySalesSnapshot → Type 0
  IsRolledUp id now p =
      (s : DailySalesSnapshot) × (t' : List DailySalesSnapshot) × (p ≡ (ok s, t'))
      × (filter_by (of_day day) t' ≡ s ∷ [])
      × (s ≡ rolled_up created_at day orders s)
      × (rollup_daily_sales created_at id now (some day) orders t' ≡ (ok s, t'))

  again :
      (id now : ℕ) (s : DailySalesSnapshot) (t : List DailySalesSnapshot)
      → Distinct t
      → filter_by (of_day day) t ≡ s ∷ []
      → s ≡ rolled_up created_at day orders s
      → rollup_daily_sales created_at id now (some day) orders t ≡ (ok s, t)
  unfolding rollup_daily_sales
  again id now s t d one same =
      let stored : IsStored t s = (rw one at (filter-IsStored (of_day day) t d)).0 in
      rw (one, ← same, save-stored s t d stored) refl

  -- No key is used twice and that of a new row is free; the day has no row, or one row that lives. A
  -- rollup of the day returns; the day then has one living row, which says what the orders come to.
  -- Another rollup of the day, with the same orders, returns this row and changes nothing.
  pub rollup_daily_sales-twice :
      (id now id' now' : ℕ) (t : List DailySalesSnapshot)
      → Distinct t
      → lookup id t ≡ none
      → HasRoom day t
      → IsRolledUp id' now' (rollup_daily_sales created_at id now (some day) orders t)
  unfolding rollup_daily_sales
  rollup_daily_sales-twice id now id' now' t d fresh (inl empty) =
      let s : DailySalesSnapshot = rolled_up created_at day orders (new_snapshot id day) in
      let none_there = of_day-none day t empty in
      let one = filter-append_yes (of_day day) s t (of_day_self day s refl refl) none_there in
      (
        s,
        t ++ s ∷ [],
        rw (none_there, any-filter_none (has_day day) t empty) refl,
        one,
        refl,
        again id' now' s (t ++ s ∷ []) (append-Distinct s t d fresh) one refl,
      )
  rollup_daily_sales-twice id now id' now' t d fresh (inr (r, one_there)) =
      let s : DailySalesSnapshot = rolled_up created_at day orders r in
      let stored : IsStored t r = (rw one_there at (filter-IsStored (of_day day) t d)).0 in
      let fits : of_day day r ≡ true = (rw one_there at (filter_by-All (of_day day) t)).0 in
      let one = filter-save_yes (of_day day) r s t d stored refl fits fits one_there in
      (
        s,
        save s t,
        rw one_there refl,
        one,
        refl,
        again id' now' s (save s t) (save-Distinct s t d) one refl,
      )
