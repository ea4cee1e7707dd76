-- ===== src/Cart/Emptying.antt =====
-- Emptying a cart: `clear_cart` and `remove_item` of django_app/apps/cart/services.py.
use ecommerce.Prelude.{ℕ, ◌≡◌, ◌≢◌, refl, not, List, [], ◌∷◌, arith, ◌==◌, filter_by}
use ecommerce.Prelude.Int.{pos, total}
use ecommerce.Exec.{ok}
use ecommerce.Core.Models.{alive}
use ecommerce.Core.Models.SoftDelete.{alive-delete_where}
use ecommerce.Cart.{Cart, CartItem, cart_item_model, items_of, subtotal, total_items}
use ecommerce.Cart.Services.{empty_cart, clear_cart}
use ecommerce.Database.{Db}

filter_none :
    (c : ℕ) (t : List CartItem)
    → filter_by (λ it. it.cart == c) (filter_by (λ it. not (it.cart == c)) t) ≡ []
filter_none c [] = refl
filter_none c (it ∷ t) = ground (arith, filter_none c t)

filter_other :
    (c j : ℕ) (t : List CartItem)
    → j ≢ c
    → filter_by (λ it. it.cart == j) (filter_by (λ it. not (it.cart == c)) t)
      ≡ filter_by (λ it. it.cart == j) t
filter_other c j [] ne = refl
filter_other c j (it ∷ t) ne = ground (arith, filter_other c j t ne)

module _ (now : ℕ) (cart : Cart) (db : Db) where
  pub items_of-empty_cart : items_of cart.id (empty_cart now cart db).cart_items ≡ []
  unfolding items_of empty_cart
  items_of-empty_cart =
      rw (alive-delete_where now (λ it. it.cart == cart.id) db.cart_items).0
        (filter_none cart.id (alive db.cart_items))

  pub items_of-empty_cart_other :
      (j : ℕ)
      → j ≢ cart.id
      → items_of j (empty_cart now cart db).cart_items ≡ items_of j db.cart_items
  unfolding items_of empty_cart
  items_of-empty_cart_other j ne =
      rw (alive-delete_where now (λ it. it.cart == cart.id) db.cart_items).0
        (filter_other cart.id j (alive db.cart_items) ne)

  -- Clearing a cart always succeeds. It leaves the cart with no items, so its subtotal and its count
  -- are zero, and every other cart's items as they were.
  pub clear_cart_lem :
      let (r, db') = clear_cart now cart db in
      (r ≡ ok tt)
      × (items_of cart.id db'.cart_items ≡ [])
      × (subtotal cart.id db'.cart_items ≡ pos 0)
      × (total_items cart.id db'.cart_items ≡ pos 0)
      × ((j : ℕ) → j ≢ cart.id → items_of j db'.cart_items ≡ items_of j db.cart_items)
  unfolding clear_cart subtotal total_items total
  clear_cart_lem = (
    refl,
    items_of-empty_cart,
    rw items_of-empty_cart,
    rw items_of-empty_cart,
    items_of-empty_cart_other,
  )
