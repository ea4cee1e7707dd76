-- ===== src/Analytics/Revenue.antt =====
-- The revenue of a day while an order moves on: django_app/apps/analytics/services.py with
-- django_app/apps/orders/services.py.
use ecommerce.Prelude.{
  ℕ, ◌≡◌, refl, ap, ◌∙◌, Bool, true, false, ◌&&◌, Option, String, List, [], ◌∷◌, arith, ◌==◌,
  if◌then◌else◌, filter_by, filter_by-filter_by,
}
use ecommerce.Prelude.Int.{ℤ, pos, ◌+ℤ◌, total, int_laws, parts_of_eq, eq_of_parts}
use ecommerce.Exec.{ok, is_ok}
use ecommerce.Core.Models.{alive, is_alive, Distinct, save}
use ecommerce.Core.Models.Rows.{total-save}
use ecommerce.Orders.{Status, paid, packed, Order, order_model, can_transition_to}
use ecommerce.Orders.Services.{moved_to, transition_status}
use ecommerce.Orders.Lifecycle.{id-moved_to, transition_status-ok, transition_status-done}
use ecommerce.Database.{Db, get_one}
use ecommerce.Database.Queries.{get_one-ok}
use ecommerce.Analytics.{day_of, on_day, is_paid, grand_total_of, paid_on, revenue_today}

total-filter :
    (w : Order → ℤ) (p : Order → Bool) (xs : List Order)
    → total w (filter_by p xs) ≡ total (λ x. if p x then w x else pos 0) xs
unfolding total
total-filter w p [] = refl
total-filter w p (x ∷ xs) = grind (int_laws, total-filter w p xs)

-- What an order adds to the revenue of a day.
abbrev counted : ℕ → Order → ℤ
counted day o = if is_alive o && (is_paid o && on_day day o.paid_at) then o.grand_total else pos 0

total-paid_on :
    (day : ℕ) (t : List Order) → total grand_total_of (paid_on day t) ≡ total (counted day) t
unfolding paid_on alive
total-paid_on day t =
    let p : Order → Bool = λ o. is_paid o && on_day day o.paid_at in
    ap (total grand_total_of) (filter_by-filter_by is_alive p t)
    ∙ total-filter grand_total_of (λ o. is_alive o && p o) t

uncounted : (day : ℕ) (o : Order) → is_paid o ≡ false → counted day o ≡ pos 0
uncounted day o h = ground arith

not_paid : (o : Order) → can_transition_to o paid ≡ true → is_paid o ≡ false
unfolding can_transition_to
not_paid o h = ground arith

may_pack : (o : Order) → o.status ≡ paid → can_transition_to o packed ≡ true
unfolding can_transition_to
may_pack o h = rw h refl

same_number : (n : ℕ) → (n == n) ≡ true
same_number n = ground arith

module _ (now id later : ℕ) (actor : Option ℕ) (message : String) (db : Db)
    (distinct : Distinct db.orders) (o : Order)
    (found : get_one (λ o. o.id == id) db.orders ≡ ok o) where
  -- The order is saved, and the other orders add what they did.
  saved :
      (new : Status)
      → total grand_total_of (paid_on (day_of later) (save (moved_to now new o) db.orders))
          +ℤ counted (day_of later) o
        ≡ total grand_total_of (paid_on (day_of later) db.orders)
          +ℤ counted (day_of later) (moved_to now new o)
  saved new =
      let (stored, lives, fits) = get_one-ok (λ o. o.id == id) db.orders o distinct found in
      rw
        (
          total-paid_on (day_of later) (save (moved_to now new o) db.orders),
          total-paid_on (day_of later) db.orders,
        )
        (total-save (counted (day_of later)) (moved_to now new o) o db.orders distinct
          (rw (id-moved_to now new o) stored))

  -- An order is found. When it is paid for and the call returns, the revenue of the day of that call
  -- grows by the order's amount. When it has been paid for and is then packed, the revenue of the day
  -- of its payment falls by the amount.
  pub revenue_today-transition_status :
      (is_ok (transition_status now id paid actor message db).0 ≡ true
        → day_of now ≡ day_of later
        → revenue_today later (transition_status now id paid actor message db).1.orders
          ≡ revenue_today later db.orders +ℤ o.grand_total)
      × (o.status ≡ paid
          → on_day (day_of later) o.paid_at ≡ true
          → revenue_today later (transition_status now id packed actor message db).1.orders
              +ℤ o.grand_total
            ≡ revenue_today later db.orders)
  unfolding revenue_today
  revenue_today-transition_status = (paying, packing)
    where
      paying :
          is_ok (transition_status now id paid actor message db).0 ≡ true
          → day_of now ≡ day_of later
          → total grand_total_of
              (paid_on (day_of later) (transition_status now id paid actor message db).1.orders)
            ≡ total grand_total_of (paid_on (day_of later) db.orders) +ℤ o.grand_total
      paying h day =
          let (o', found', allowed, done, result) =
            transition_status-ok now id paid actor message db h in
          let same : o' ≡ o = grind arith in
          let (stored, lives, fits) = get_one-ok (λ o. o.id == id) db.orders o distinct found in
          let before : counted (day_of later) o ≡ pos 0 =
            uncounted (day_of later) o (not_paid o (rw same at allowed)) in
          let after : counted (day_of later) (moved_to now paid o) ≡ o.grand_total =
            rw (lives, day) (rw (same_number (day_of later)) refl) in
          let s = saved paid in
          rw (result, same)
            (eq_of_parts _ _
              (omega (int_laws, parts_of_eq s, parts_of_eq before, parts_of_eq after)))

      packing :
          o.status ≡ paid
          → on_day (day_of later) o.paid_at ≡ true
          → total grand_total_of
                (paid_on (day_of later) (transition_status now id packed actor message db).1.orders)
              +ℤ o.grand_total
            ≡ total grand_total_of (paid_on (day_of later) db.orders)
      packing status day =
          let (stored, lives, fits) = get_one-ok (λ o. o.id == id) db.orders o distinct found in
          let allowed : can_transition_to o packed ≡ true = may_pack o status in
          let result = transition_status-done now id packed actor message db o found allowed refl in
          let before : counted (day_of later) o ≡ o.grand_total = rw (lives, status, day) refl in
          let s = saved packed in
          let after : counted (day_of later) (moved_to now packed o) ≡ pos 0 = rw lives refl in
          rw result (
            eq_of_parts _ _
              (omega (int_laws, parts_of_eq s, parts_of_eq before, parts_of_eq after)))
