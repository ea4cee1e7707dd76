-- ===== src/Analytics.antt =====
-- django_app/apps/analytics: the figures of services.py and the daily snapshot of tasks.py. A time is
-- the number of seconds since the epoch, and the zone is UTC, as TIME_ZONE says unless it is set. The
-- columns `created_at` of orders and `last_active_at` of carts, which no service reads, are functions of the key.
pub mod Grouping
pub mod Rollup
pub mod Series
pub mod Best
pub mod Revenue
pub mod Abandoned
use ecommerce.Prelude.{
  ℕ, suc, ◌+◌, ◌-◌, ◌*◌, ◌/◌, refl, Bool, true, false, ◌&&◌, ◌||◌, Option, none, some, String, List,
  [], ◌∷◌, ◌++◌, ◌==◌, ltb, leb, if◌then◌else◌, filter_by, any, take, map, length,
}
use ecommerce.Prelude.Int.{ℤ, pos, ◌+ℤ◌, ◌*ℤ◌, total, leb_ℤ}
use ecommerce.Exec.{Exec, Result, ok, err, integrity_error, multiple_objects}
use ecommerce.Core.Models.{Model, alive, is_alive, save, lookup}
use ecommerce.Core.Models.Sorting.{order_by}
use ecommerce.Coupons.Rounding.{quantize}
use ecommerce.Inventory.{Stock, is_low, stock_model}
use ecommerce.Catalog.{ProductVariant, variant_model}
use ecommerce.Cart.{Cart, CartItem, cart_model, items_of, subtotal}
use ecommerce.Orders.{
  Order, OrderItem, order_model, order_item_model, Status, paid, cancelled, status_eq,
}
use ecommerce.Analytics.Grouping.{keys_of, group}

-- The date of a time.
abbrev pub day_of : ℕ → ℕ
day_of t = t / 86_400

-- `timezone.now() - timedelta(days=…)`; no stamp is before the epoch.
abbrev pub days_before : ℕ → ℕ → ℕ
days_before now days = now - days * 86_400

-- Comparisons with a missing stamp are not true.
abbrev pub on_day : ℕ → Option ℕ → Bool
on_day day none = false
on_day day (some t) = day_of t == day

abbrev pub from_time : ℕ → Option ℕ → Bool
from_time since none = false
from_time since (some t) = leb since t

abbrev pub from_day : ℕ → Option ℕ → Bool
from_day day none = false
from_day day (some t) = leb day (day_of t)

abbrev pub is_paid : Order → Bool
is_paid o = status_eq o.status paid

abbrev pub grand_total_of : Order → ℤ
grand_total_of o = o.grand_total

-- The mean of a column, and zero without rows.
abbrev pub average : (Order → ℤ) → List Order → ℤ
average w [] = pos 0
average w (o ∷ os) = quantize (total w (o ∷ os)) (length (o ∷ os))

unfoldable pub paid_on : ℕ → List Order → List Order
paid_on day orders = filter_by (λ o. is_paid o && on_day day o.paid_at) (alive orders)

unfoldable pub revenue_today : ℕ → List Order → ℤ
unfolding paid_on
revenue_today now orders = total grand_total_of (paid_on (day_of now) orders)

pub record OrderCounts : Type 0 where
  pub all_orders : ℕ
  pub paid_orders : ℕ
  pub cancelled_orders : ℕ

-- The orders that were created on a day.
abbrev pub created_on : (ℕ → ℕ) → ℕ → List Order → List Order
created_on created_at day orders = filter_by (λ o. day_of (created_at o.id) == day) (alive orders)

abbrev pub counts : List Order → OrderCounts
counts qs = record {
  all_orders = length qs;
  paid_orders = length (filter_by is_paid qs);
  cancelled_orders = length (filter_by (λ o. status_eq o.status cancelled) qs);
}

unfoldable pub orders_today : (ℕ → ℕ) → ℕ → List Order → OrderCounts
orders_today created_at now orders = counts (created_on created_at (day_of now) orders)

unfoldable pub average_order_value : ℕ → ℕ → List Order → ℤ
average_order_value now days orders =
    average grand_total_of
      (filter_by (λ o. is_paid o && from_time (days_before now days) o.paid_at) (alive orders))

pub record DayRow : Type 0 where
  pub day : ℕ
  pub revenue : ℤ
  pub orders : ℕ

-- `TruncDate("paid_at")`; the filter has left out the orders without a stamp.
abbrev pub paid_day : Order → ℕ
paid_day o = elim o.paid_at [ none ↦ 0 | some t ↦ day_of t ]

abbrev pub day_row : ℕ → List Order → DayRow
day_row day orders = record {
  day = day;
  revenue = total grand_total_of orders;
  orders = length orders;
}

abbrev pub earlier_day : DayRow → DayRow → Bool
earlier_day a b = leb a.day b.day

-- The orders that the series is about.
abbrev pub series_orders : ℕ → ℕ → List Order → List Order
series_orders now days orders =
    filter_by (λ o. is_paid o && from_day (day_of (days_before now days)) o.paid_at) (alive orders)

abbrev pub same_day : ℕ → ℕ → Bool
same_day a b = a == b

unfoldable pub revenue_timeseries : ℕ → ℕ → List Order → List DayRow
unfolding group
revenue_timeseries now days orders =
    order_by earlier_day (group same_day paid_day day_row (series_orders now days orders))

pub record ProductRow : Type 0 where
  pub product : Option ℕ
  pub qty : ℤ
  pub revenue : ℤ

abbrev of_order : (Order → Bool) → Option Order → Bool
of_order p none = false
of_order p (some o) = p o

abbrev product_in : Option ProductVariant → Option ℕ
product_in none = none
product_in (some v) = some v.product

-- `variant__product_id`, which is NULL where the variant is; the joins reach hidden rows.
abbrev pub product_of : List ProductVariant → OrderItem → Option ℕ
product_of variants i = elim i.variant [ none ↦ none | some v ↦ product_in (lookup v variants) ]

abbrev pub same_product : Option ℕ → Option ℕ → Bool
same_product none none = true
same_product (some a) (some b) = a == b
same_product _ _ = false

abbrev pub quantity_of : OrderItem → ℤ
quantity_of i = i.quantity

abbrev pub amount_of : OrderItem → ℤ
amount_of i = i.unit_price *ℤ i.quantity

abbrev pub product_row : Option ℕ → List OrderItem → ProductRow
product_row product items = record {
  product = product;
  qty = total quantity_of items;
  revenue = total amount_of items;
}

abbrev pub more_sold : ProductRow → ProductRow → Bool
more_sold a b = leb_ℤ b.qty a.qty

-- The items of the orders that are paid and were paid within the days.
abbrev pub sold_items : ℕ → ℕ → List Order → List OrderItem → List OrderItem
sold_items now days orders items =
    filter_by
      (λ i.
        of_order (λ o. is_paid o && from_time (days_before now days) o.paid_at)
          (lookup i.order orders))
      (alive items)

unfoldable pub top_products :
    ℕ → ℕ → ℕ → List ProductVariant → List Order → List OrderItem → List ProductRow
unfolding group
top_products limit now days variants orders items = take limit (
    order_by more_sold
      (group same_product (product_of variants) product_row (sold_items now days orders items)))

pub record CartRow : Type 0 where
  pub cart : ℕ
  pub user : Option ℕ
  pub last_active : ℕ
  pub item_count : ℕ
  pub subtotal : ℤ

-- `Count("items")` joins the table of items, hidden rows included; `subtotal` is the cart's.
abbrev pub cart_row : (ℕ → ℕ) → List CartItem → Cart → CartRow
cart_row last_active_at items c = record {
  cart = c.id;
  user = c.user;
  last_active = last_active_at c.id;
  item_count = length (filter_by (λ it. it.cart == c.id) items);
  subtotal = subtotal c.id items;
}

-- `items__isnull=False` and `item_count__gt=0`, before the cutoff.
abbrev pub is_abandoned : (ℕ → ℕ) → ℕ → List CartItem → Cart → Bool
is_abandoned last_active_at cutoff items c =
    ltb (last_active_at c.id) cutoff && any (λ it. it.cart == c.id) items

abbrev later_active : CartRow → CartRow → Bool
later_active a b = leb b.last_active a.last_active

unfoldable pub abandoned_carts : (ℕ → ℕ) → ℕ → ℕ → ℕ → List Cart → List CartItem → List CartRow
abandoned_carts last_active_at now idle_minutes limit carts items = take limit (
    order_by later_active (
      map (cart_row last_active_at items)
        (filter_by (is_abandoned last_active_at (now - idle_minutes * 60) items) (alive carts))))

-- The threshold is an argument that the code does not read.
unfoldable pub low_stock_alerts : Option ℕ → List Stock → ℕ
unfolding is_low
low_stock_alerts threshold stocks = length (filter_by is_low (alive stocks))
