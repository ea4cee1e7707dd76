-- ===== src/Api/Carts.antt =====
-- `CartViewSet` of django_app/apps/cart/views.py and the serializers of cart/serializers.py. A request
-- has a user, the key of its session and the key that a new session would get; keys of new rows are
-- arguments.
use text.Mathlib.Text.{◌==◌ as str_eq}
use ecommerce.Prelude.{
  ℕ, suc, Bool, ◌&&◌, Option, none, some, String, List, ◌==◌, any, map, if◌then◌else◌,
}
use ecommerce.Prelude.Int.{ℤ, pos, leb_ℤ}
use ecommerce.Exec.{Exec}
use ecommerce.Core.Models.{alive, lookup}
use ecommerce.Core.Permissions.{User}
use ecommerce.Catalog.{Product, product_model, ProductVariant, variant_model}
use ecommerce.Cart.{Cart, CartItem, items_of, subtotal, total_items, line_total}
use ecommerce.Cart.Services.{get_or_create_cart, add_item, update_item, remove_item, clear_cart}
use ecommerce.Database.{Db}
use ecommerce.Api.{Answer, raises, invalid, reply, after, unless_out_of_stock}

pub record Caller : Type 0 where
  pub user : Option User
  pub session_key : String
  pub new_session_key : String

-- `CartItemSerializer`
pub record CartLine : Type 0 where
  pub id : ℕ
  pub variant : ℕ
  pub sku : String
  pub product_name : String
  pub quantity : ℤ
  pub unit_price : ℤ
  pub line_total : ℤ

-- `CartSerializer`
pub record CartData : Type 0 where
  pub cart : Cart
  pub items : List CartLine
  pub subtotal : ℤ
  pub total_items : ℤ

abbrev name_of : Option Product → String
name_of none = ""
name_of (some p) = p.name

abbrev line_data : List Product → CartItem → Option ProductVariant → CartLine
line_data products it v = record {
  id = it.id;
  variant = it.variant;
  sku = elim v [ none ↦ "" | some v ↦ v.sku ];
  product_name = elim v [ none ↦ "" | some v ↦ name_of (lookup v.product products) ];
  quantity = it.quantity;
  unit_price = it.unit_price;
  line_total = line_total it;
}

unfoldable pub cart_data : Cart → Db → CartData
cart_data c db = record {
  cart = c;
  items =
      map (λ it. line_data db.products it (lookup it.variant db.variants))
        (items_of c.id db.cart_items);
  subtotal = subtotal c.id db.cart_items;
  total_items = total_items c.id db.cart_items;
}

-- What `AddItemSerializer` accepts.
abbrev pub may_add : ℕ → ℤ → Db → Bool
may_add variant_id quantity db =
    leb_ℤ (pos 1) quantity && any (λ v. v.id == variant_id && v.is_active) (alive db.variants)

abbrev pub session_of : Caller → String
session_of caller =
    if str_eq caller.session_key "" then caller.new_session_key else caller.session_key

-- `_resolve_cart`
unfoldable pub resolve_cart : ℕ → Caller → Exec Db Cart
resolve_cart fresh caller = get_or_create_cart fresh caller.user (session_of caller)

abbrev pub View : Type 0
View = Db → Answer CartData × Db

abbrev pub shows : ℕ → Cart → View
shows status cart db = (reply status (cart_data cart db), db)

unfoldable pub list : ℕ → Caller → View
unfolding resolve_cart cart_data
list fresh caller db = after (resolve_cart fresh caller db) (shows 200)

abbrev pub adds : ℕ → ℕ → ℤ → Cart → View
adds fresh variant_id quantity cart db =
    if may_add variant_id quantity db
    then unless_out_of_stock (add_item fresh cart variant_id quantity db) (λ item. shows 201 cart)
    else (raises invalid, db)

unfoldable pub add : ℕ → Caller → ℕ → ℤ → View
unfolding resolve_cart cart_data
add fresh caller variant_id quantity db =
    after (resolve_cart fresh caller db) (adds (suc fresh) variant_id quantity)

abbrev pub removes : ℕ → ℕ → Cart → View
removes now item_id cart db = after (remove_item now cart item_id db) (λ u. shows 200 cart)

-- `item` for DELETE
unfoldable pub delete_item : ℕ → ℕ → Caller → ℕ → View
unfolding resolve_cart cart_data
delete_item now fresh caller item_id db = after (resolve_cart fresh caller db) (removes now item_id)

-- `UpdateItemSerializer` accepts a quantity that is not negative.
abbrev pub updates : ℕ → ℕ → ℤ → Cart → View
updates now item_id quantity cart db =
    if leb_ℤ (pos 0) quantity
    then unless_out_of_stock (update_item now cart item_id quantity db) (λ item. shows 200 cart)
    else (raises invalid, db)

-- `item` for PATCH
unfoldable pub update : ℕ → ℕ → Caller → ℕ → ℤ → View
unfolding resolve_cart cart_data
update now fresh caller item_id quantity db =
    after (resolve_cart fresh caller db) (updates now item_id quantity)

unfoldable pub clear : ℕ → ℕ → Caller → View
unfolding resolve_cart cart_data
clear now fresh caller db =
    after (resolve_cart fresh caller db)
      (λ cart db'. after (clear_cart now cart db') (λ u. shows 200 cart))
