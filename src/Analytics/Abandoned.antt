-- ===== src/Analytics/Abandoned.antt =====
-- The carts that `abandoned_carts` of django_app/apps/analytics/services.py lists, once one of them is
-- cleared by django_app/apps/cart/services.py.
use ecommerce.Prelude.{
  ℕ, zero, suc, ◌-◌, ◌*◌, ◌≡◌, ◌≢◌, refl, ap, ◌∙◌, inl, inr, true, false, none, List, [], ◌∷◌,
  arith, ◌==◌, if◌then◌else◌, filter_by, any, map, take, length, Bool-cases,
}
use ecommerce.Prelude.Int.{pos, total}
use ecommerce.Core.Models.{alive, is_alive, delete_where, update_fields}
use ecommerce.Core.Models.Sorting.{order_by, insert_by}
use ecommerce.Cart.{Cart, cart_model, CartItem, cart_item_model, subtotal}
use ecommerce.Cart.Services.{clear_cart, empty_cart}
use ecommerce.Cart.Emptying.{items_of-empty_cart, items_of-empty_cart_other}
use ecommerce.Database.{Db}
use ecommerce.Analytics.{CartRow, cart_row, is_abandoned, later_active, abandoned_carts}

-- The items that a join reaches.
filter-delete_where :
    (now c k : ℕ) (t : List CartItem)
    → (length (filter_by (λ it. it.cart == k) (delete_where now (λ it. it.cart == c) t))
        ≡ length (filter_by (λ it. it.cart == k) t))
      × (any (λ it. it.cart == k) (delete_where now (λ it. it.cart == c) t)
          ≡ any (λ it. it.cart == k) t)
unfolding delete_where
filter-delete_where now c k [] = (refl, refl)
filter-delete_where now c k (it ∷ t) = ground (arith, filter-delete_where now c k t)

-- The row of a cart that has been cleared.
abbrev pub emptied : ℕ → CartRow → CartRow
emptied c r = if r.cart == c then record r { subtotal = pos 0 } else r

take-map :
    (f : CartRow → CartRow) (n : ℕ) (rs : List CartRow) → take n (map f rs) ≡ map f (take n rs)
take-map f zero rs = refl
take-map f (suc n) [] = refl
take-map f (suc n) (r ∷ rs) = ap (λ (z : List CartRow). f r ∷ z) (take-map f n rs)

last_active-emptied : (c : ℕ) (r : CartRow) → (emptied c r).last_active ≡ r.last_active
last_active-emptied c r = ground arith

insert_by-emptied :
    (c : ℕ) (r : CartRow) (rs : List CartRow)
    → insert_by later_active (emptied c r) (map (emptied c) rs)
      ≡ map (emptied c) (insert_by later_active r rs)
unfolding insert_by
insert_by-emptied c r [] = refl
insert_by-emptied c r (s ∷ rs) =
    rw (last_active-emptied c r, last_active-emptied c s, insert_by-emptied c r rs)
      (elim (Bool-cases (later_active r s)) [ inl e ↦ rw e refl | inr e ↦ rw e refl ])

order_by-emptied :
    (c : ℕ) (rs : List CartRow)
    → order_by later_active (map (emptied c) rs) ≡ map (emptied c) (order_by later_active rs)
unfolding order_by
order_by-emptied c [] = refl
order_by-emptied c (r ∷ rs) =
    ap (insert_by later_active (emptied c r)) (order_by-emptied c rs)
    ∙ insert_by-emptied c r (order_by later_active rs)

module _ (last_active_at : ℕ → ℕ) (now : ℕ) (cart : Cart) (db : Db) where
  after : Db
  after = empty_cart now cart db

  counted_after :
      (k : ℕ)
      → (length (filter_by (λ it. it.cart == k) after.cart_items)
          ≡ length (filter_by (λ it. it.cart == k) db.cart_items))
        × (any (λ it. it.cart == k) after.cart_items ≡ any (λ it. it.cart == k) db.cart_items)
  unfolding after empty_cart
  counted_after k = filter-delete_where now cart.id k db.cart_items

  subtotal_after :
      (k : ℕ)
      → subtotal k after.cart_items ≡ (if k == cart.id then pos 0 else subtotal k db.cart_items)
  unfolding after subtotal total
  subtotal_after k = elim (Bool-cases (k == cart.id)) [
    | inl e ↦ let q : k ≡ cart.id = ground arith in rw (e, q, items_of-empty_cart now cart db) refl
    | inr e ↦
        let ne : k ≢ cart.id = (λ q. ground arith) in
        rw (e, items_of-empty_cart_other now cart db k ne) refl
  ]

  row_after :
      (c c' : Cart)
      → c'.id ≡ c.id
      → c'.user ≡ c.user
      → cart_row last_active_at after.cart_items c'
        ≡ emptied cart.id (cart_row last_active_at db.cart_items c)
  row_after c c' e u =
      rw (e, u, (counted_after c.id).0, subtotal_after c.id)
        (elim (Bool-cases (c.id == cart.id)) [ inl k ↦ rw k refl | inr k ↦ rw k refl ])

  abandoned_after :
      (cutoff : ℕ) (c c' : Cart)
      → c'.id ≡ c.id
      → is_abandoned last_active_at cutoff after.cart_items c'
        ≡ is_abandoned last_active_at cutoff db.cart_items c
  abandoned_after cutoff c c' e = rw (e, (counted_after c.id).1) refl

  -- The rows of the carts, before and after.
  rows_before : ℕ → List Cart → List CartRow
  rows_before cutoff t =
      map (cart_row last_active_at db.cart_items)
        (filter_by (is_abandoned last_active_at cutoff db.cart_items) (alive t))

  rows_after : ℕ → List Cart → List CartRow
  rows_after cutoff t =
      map (cart_row last_active_at after.cart_items)
        (filter_by (is_abandoned last_active_at cutoff after.cart_items) (alive t))

  cons_after :
      (cutoff : ℕ) (c c' : Cart) (t u : List Cart)
      → c'.id ≡ c.id
      → c'.user ≡ c.user
      → c'.deleted_at ≡ c.deleted_at
      → rows_after cutoff u ≡ map (emptied cart.id) (rows_before cutoff t)
      → rows_after cutoff (c' ∷ u) ≡ map (emptied cart.id) (rows_before cutoff (c ∷ t))
  unfolding rows_after rows_before alive
  cons_after cutoff c c' t u e v d h = elim (Bool-cases (is_alive c)) [
    | inr k ↦ let k' : is_alive c' ≡ false = rw d k in rw (k, k') h
    | inl k ↦
        let k' : is_alive c' ≡ true = rw d k in
        elim (Bool-cases (is_abandoned last_active_at cutoff db.cart_items c)) [
          | inr a ↦ let a' = abandoned_after cutoff c c' e ∙ a in rw (k, k', a, a') h
          | inl a ↦
              let a' = abandoned_after cutoff c c' e ∙ a in
              rw (k, k', a, a', row_after c c' e v, h) refl
        ]
  ]

  list_after :
      (cutoff : ℕ) (t : List Cart)
      → rows_after cutoff (update_fields cart.id (λ c. record c { coupon = none }) t)
        ≡ map (emptied cart.id) (rows_before cutoff t)
  unfolding update_fields rows_after rows_before alive
  list_after cutoff [] = refl
  list_after cutoff (c ∷ t) =
      let u : List Cart = update_fields cart.id (λ c. record c { coupon = none }) t in
      elim (Bool-cases (c.id == cart.id)) [
        | inl e ↦ rw e (
            cons_after cutoff c (record c { coupon = none }) t u refl refl refl
              (list_after cutoff t))
        | inr e ↦ rw e (cons_after cutoff c c t u refl refl refl (list_after cutoff t))
      ]

  -- Clearing a cart takes none off the list of abandoned carts: the list after the call is the list
  -- before it, with zero for the subtotal of the cleared cart and the same count of its items.
  pub abandoned_carts-clear_cart :
      (later idle_minutes limit : ℕ)
      → let db' = (clear_cart now cart db).1 in
        abandoned_carts last_active_at later idle_minutes limit db'.carts db'.cart_items
        ≡ map
            (emptied cart.id)
            (abandoned_carts last_active_at later idle_minutes limit db.carts db.cart_items)
  unfolding abandoned_carts clear_cart empty_cart rows_after rows_before after
  abandoned_carts-clear_cart later idle_minutes limit =
      let cutoff = later - idle_minutes * 60 in
      ap (λ rs. take limit (order_by later_active rs)) (list_after cutoff db.carts)
      ∙ ap (take limit) (order_by-emptied cart.id (rows_before cutoff db.carts))
      ∙ take-map (emptied cart.id) limit (order_by later_active (rows_before cutoff db.carts))
