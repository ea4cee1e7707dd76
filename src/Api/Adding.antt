-- ===== src/Api/Adding.antt =====
-- What the cart's view makes of an addition: django_app/apps/cart/views.py with cart/services.py.
use text.Mathlib.Text.{◌==◌ as str_eq}
use ecommerce.Prelude.{
  ℕ, suc, ◌≡◌, refl, ap, ◌⊎◌, inl, inr, Option, none, some, String, arith, Bool-cases,
}
use ecommerce.Prelude.Int.{ℤ}
use ecommerce.Exec.{Exec, Result, ok, err, out_of_stock, Outcome, atomic}
use ecommerce.Core.Models.{Distinct, lookup}
use ecommerce.Core.Permissions.{signed_in}
use ecommerce.Cart.{Cart, CartItem, cart_item_model}
use ecommerce.Cart.Services.{get_or_create_cart, cart_for, add_item}
use ecommerce.Cart.Adding.{Adds, add_item-Outcome}
use ecommerce.Database.{Db}
use ecommerce.Api.{Answer, replies, raises, reply, error_response, after, unless_out_of_stock}
use ecommerce.Api.Carts.{
  Caller, CartData, cart_data, may_add, session_of, resolve_cart, shows, adds, add,
}

-- Nothing but the table of carts differs.
abbrev pub OnlyCarts : Db → Db → Type 0
OnlyCarts db db' = db' ≡ record db { carts = db'.carts }

atomic-OnlyCarts :
    {A : Type 0} (m : Exec Db A) (db : Db) → OnlyCarts db (m db).1 → OnlyCarts db (atomic m db).1
atomic-OnlyCarts m db h = ground arith

cart_for-OnlyCarts :
    (fresh : ℕ) (user : Option ℕ) (key : String) (db : Db)
    → OnlyCarts db (cart_for fresh user key db).1
cart_for-OnlyCarts fresh (some u) key db = refl
cart_for-OnlyCarts fresh none key db = elim (Bool-cases (str_eq key "")) [
  | inl e ↦ rw e refl
  | inr e ↦ rw e refl
]

pub resolve_cart-OnlyCarts :
    (fresh : ℕ) (caller : Caller) (db : Db) → OnlyCarts db (resolve_cart fresh caller db).1
unfolding resolve_cart get_or_create_cart
resolve_cart-OnlyCarts fresh caller db =
    let user = signed_in caller.user in
    atomic-OnlyCarts (cart_for fresh user (session_of caller)) db
      (cart_for-OnlyCarts fresh user (session_of caller) db)

-- The request is refused: with 409, or by an exception that the handler answers.
abbrev pub IsRefusal : Answer CartData → Type 0
IsRefusal (replies r) = r ≡ error_response 409 "out_of_stock"
IsRefusal (raises exc) = Unit

-- What is answered with 201.
abbrev pub IsAdded : ℕ → Caller → ℕ → ℤ → Db → Answer CartData × Db → Type 0
IsAdded fresh caller v q db p =
    (cart : Cart) × (item : CartItem) × (db1 : Db) × (resolve_cart fresh caller db ≡ (ok cart, db1))
    × Adds cart v q db1 item p.1
    × (p.0 ≡ reply 201 (cart_data cart p.1))

module _ (fresh : ℕ) (caller : Caller) (v : ℕ) (q : ℤ) (db : Db) (distinct : Distinct db.cart_items)
    (absent : lookup (suc fresh) db.cart_items ≡ none) where
  Answered : Answer CartData × Db → Type 0
  Answered p = IsAdded fresh caller v q db p ⊎ (IsRefusal p.0 × OnlyCarts db p.1)

  by_added :
      (cart : Cart) (db1 : Db)
      → resolve_cart fresh caller db ≡ (ok cart, db1)
      → OnlyCarts db db1
      → (r : Result CartItem × Db)
      → Outcome db1 (λ db'. (item : CartItem) × Adds cart v q db1 item db') r
      → Answered (unless_out_of_stock r (λ item. shows 201 cart))
  unfolding Answered
  by_added cart db1 e only (ok item, db') (item', h) = inl (cart, item', db1, e, h, refl)
  by_added cart db1 e only (err out_of_stock, db') h = inr (refl, rw h only)
  by_added cart db1 e only (err x, db') h = inr (tt, rw h only)

  by_cart :
      (r : Result Cart × Db)
      → resolve_cart fresh caller db ≡ r
      → OnlyCarts db r.1
      → Answered (after r (adds (suc fresh) v q))
  unfolding Answered
  by_cart (err e, db1) eq only = inr (tt, only)
  by_cart (ok cart, db1) eq only = elim (Bool-cases (may_add v q db1)) [
    | inl e ↦
        let same : db1.cart_items ≡ db.cart_items = ap (λ (x : Db). x.cart_items) only in
        rw e (
          by_added cart db1 eq only (add_item (suc fresh) cart v q db1)
            (add_item-Outcome (suc fresh) cart v q db1 (rw same distinct) (rw same absent)))
    | inr e ↦ rw e (inr (tt, only))
  ]

  -- Where no item's key is used twice and the new one is unused: the request is answered with 201
  -- after the units of the variant in the caller's cart have grown by the quantity, within what is
  -- available, and the reply shows that cart; or it is refused, with 409 or by an exception, and no
  -- table but that of the carts has changed.
  pub add_lem :
      IsAdded fresh caller v q db (add fresh caller v q db)
      ⊎ (IsRefusal (add fresh caller v q db).0 × OnlyCarts db (add fresh caller v q db).1)
  unfolding add Answered
  add_lem = by_cart (resolve_cart fresh caller db) refl (resolve_cart-OnlyCarts fresh caller db)
