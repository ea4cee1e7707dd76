-- ===== src/Cart/Services.antt =====
-- django_app/apps/cart/services.py. A key that a new row gets is drawn at random, so it is an
-- argument, and so is the time.
use text.Mathlib.Text.{◌==◌ as str_eq}
use ecommerce.Prelude.{
  ℕ, suc, Bool, true, false, ◌&&◌, Option, none, some, String, List, [], ◌∷◌, ◌++◌, ◌==◌,
  if◌then◌else◌, filter_by, any, head?,
}
use ecommerce.Prelude.Int.{ℤ, pos, ◌+ℤ◌, ltb_ℤ, leb_ℤ}
use ecommerce.Exec.{
  Exec, Result, ok, err, value_error, does_not_exist, out_of_stock, integrity_error, pure, gets,
  modify, raise_if, ◌>>=◌, ◌>>◌, atomic,
}
use ecommerce.Core.Models.{alive, save, update_fields, lookup, delete_where, delete_instance}
use ecommerce.Core.Permissions.{User, signed_in, owned_by}
use ecommerce.Inventory.{get_available}
use ecommerce.Catalog.{ProductVariant, variant_model}
use ecommerce.Cart.{Cart, CartItem, cart_model, cart_item_model, items_of}
use ecommerce.Database.{Db, get_one, get_or_create, on_cart_items, on_carts, lift}

abbrev pub is_anonymous : Option ℕ → Bool
is_anonymous none = true
is_anonymous (some u) = false

abbrev pub no_clash : Cart → Bool
no_clash c = false

abbrev pub new_cart : ℕ → Option ℕ → String → String → Cart
new_cart fresh user session_key currency = record {
  id = fresh;
  user = user;
  session_key = session_key;
  currency = currency;
  coupon = none;
  deleted_at = none;
}

abbrev pub cart_for : ℕ → Option ℕ → String → Exec Db Cart
cart_for fresh (some u) session_key =
    on_carts (get_or_create (λ c. owned_by u c.user) no_clash (new_cart fresh (some u) "" "USD"))
cart_for fresh none session_key = do
  raise_if (str_eq session_key "") value_error
  on_carts (
      get_or_create (λ c. str_eq c.session_key session_key && is_anonymous c.user) no_clash
        (new_cart fresh none session_key "USD"))

unfoldable pub get_or_create_cart : ℕ → Option User → String → Exec Db Cart
unfolding get_or_create
get_or_create_cart fresh user session_key = atomic (cart_for fresh (signed_in user) session_key)

-- The rows that the unique pair (cart, variant) is about.
abbrev pub in_place : ℕ → ℕ → CartItem → Bool
in_place cart variant it = it.cart == cart && it.variant == variant

abbrev pub new_item : ℕ → ℕ → ℕ → ℤ → ℤ → CartItem
new_item fresh cart variant quantity unit_price = record {
  id = fresh;
  cart = cart;
  variant = variant;
  quantity = quantity;
  unit_price = unit_price;
  deleted_at = none;
}

-- What the transaction of `add_item` does.
unfoldable pub adding : ℕ → Cart → ℕ → ℤ → Exec Db CartItem
unfolding get_one get_or_create
adding fresh cart variant_id quantity = do
  raise_if (leb_ℤ quantity (pos 0)) value_error
  variant ← lift (λ db. get_one (λ v. v.id == variant_id && v.is_active) db.variants)
  item ← on_cart_items (
      get_or_create (in_place cart.id variant_id) (in_place cart.id variant_id)
        (new_item fresh cart.id variant_id (pos 0) variant.price))
  available ← gets (λ db. get_available variant_id db.inventory)
  raise_if (ltb_ℤ available (item.quantity +ℤ quantity)) out_of_stock
  let item' = record item { quantity = item.quantity +ℤ quantity; unit_price = variant.price }
  modify (λ db. record db { cart_items = save item' db.cart_items })
  pure item'

unfoldable pub add_item : ℕ → Cart → ℕ → ℤ → Exec Db CartItem
unfolding adding
add_item fresh cart variant_id quantity = atomic (adding fresh cart variant_id quantity)

abbrev set_quantity : CartItem → ℤ → Exec Db (Option CartItem)
set_quantity item quantity = do
  available ← gets (λ db. get_available item.variant db.inventory)
  raise_if (ltb_ℤ available quantity) out_of_stock
  let item' = record item { quantity = quantity }
  modify (λ db. record db { cart_items = save item' db.cart_items })
  pure (some item')

abbrev drop_item : ℕ → CartItem → Exec Db (Option CartItem)
drop_item now item = do
  modify (λ db. record db { cart_items = delete_instance now item db.cart_items })
  pure none

unfoldable pub update_item : ℕ → Cart → ℕ → ℤ → Exec Db (Option CartItem)
unfolding get_one
update_item now cart item_id quantity = atomic do
  item ← lift (λ db. get_one (λ it. it.id == item_id && it.cart == cart.id) db.cart_items)
  if leb_ℤ quantity (pos 0) then drop_item now item else set_quantity item quantity

unfoldable pub remove_item : ℕ → Cart → ℕ → Exec Db (Unit {0})
remove_item now cart item_id = atomic (
    modify λ db. record db {
      cart_items = delete_where now (λ it. it.id == item_id && it.cart == cart.id) db.cart_items;
    })

-- `cart.items.all().delete()`, `cart.coupon = None` and the save of that column.
unfoldable pub empty_cart : ℕ → Cart → Db → Db
empty_cart now cart db = record db {
  cart_items = delete_where now (λ it. it.cart == cart.id) db.cart_items;
  carts = update_fields cart.id (λ c. record c { coupon = none }) db.carts;
}

unfoldable pub clear_cart : ℕ → Cart → Exec Db (Unit {0})
unfolding empty_cart
clear_cart now cart = atomic (modify (empty_cart now cart))

-- A variant is reached by its foreign key, deleted or not.
abbrev pub reached : {A : Type 0} → Option A → Result A
reached none = err does_not_exist
reached (some v) = ok v

abbrev pub existing_item : Cart → CartItem → Db → Option CartItem
existing_item user_cart item db =
    head? (filter_by (in_place user_cart.id item.variant) (alive db.cart_items))

abbrev pub merge_with : ℕ → Cart → CartItem → ProductVariant → Option CartItem → Exec Db (Unit {0})
merge_with fresh user_cart item variant (some e) = modify λ db. record db {
  cart_items =
      save (record e { quantity = e.quantity +ℤ item.quantity; unit_price = variant.price })
        db.cart_items;
}
merge_with fresh user_cart item variant none = on_cart_items λ t.
    if any (in_place user_cart.id item.variant) t
    then (err integrity_error, t)
    else (ok tt, t ++ new_item fresh user_cart.id item.variant item.quantity variant.price ∷ [])

-- One round of the merge.
unfoldable pub merge_one : ℕ → Cart → CartItem → Exec Db (Unit {0})
merge_one fresh user_cart item = do
  variant ← lift (λ db. reached (lookup item.variant db.variants))
  existing ← gets (existing_item user_cart item)
  merge_with fresh user_cart item variant existing

-- The n-th round takes the n-th key after `fresh`.
unfoldable pub merge_items : ℕ → Cart → List CartItem → Exec Db (Unit {0})
unfolding merge_one
merge_items fresh user_cart [] = pure tt
merge_items fresh user_cart (item ∷ rest) = do
  merge_one fresh user_cart item
  merge_items (suc fresh) user_cart rest

abbrev pub merge_into : ℕ → ℕ → ℕ → Cart → Exec Db (Option Cart)
merge_into now fresh user anon = do
  user_cart ← on_carts (
      get_or_create (λ c. owned_by user c.user) no_clash
        (new_cart fresh (some user) "" anon.currency))
  items ← gets λ db. items_of anon.id db.cart_items
  merge_items (suc fresh) user_cart items
  modify λ db. record db { carts = delete_instance now anon db.carts }
  pure (some user_cart)

-- `get` is caught on `Cart.DoesNotExist` alone.
abbrev pub with_anonymous : ℕ → ℕ → ℕ → Result Cart → Exec Db (Option Cart)
with_anonymous now fresh user (ok anon) = merge_into now fresh user anon
with_anonymous now fresh user (err does_not_exist) = pure none
with_anonymous now fresh user (err e) = λ db. (err e, db)

unfoldable pub merge_anonymous_into_user : ℕ → ℕ → String → ℕ → Exec Db (Option Cart)
unfolding get_one get_or_create merge_items items_of
merge_anonymous_into_user now fresh session_key user = atomic (
    if str_eq session_key "" then pure none else do
      found ←
          gets λ db. get_one (λ c. str_eq c.session_key session_key && is_anonymous c.user) db.carts
      with_anonymous now fresh user found)
