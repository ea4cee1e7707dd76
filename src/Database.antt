-- ===== src/Database.antt =====
-- The tables that the services of django_app/apps share, and the queries that several of them make.
pub mod Queries
use ecommerce.Prelude.{
  ℕ, Bool, true, false, Option, none, some, List, [], ◌∷◌, ◌++◌, filter_by, any, if◌then◌else◌,
}
use ecommerce.Exec.{Exec, Result, ok, err, Error, does_not_exist, multiple_objects, integrity_error}
use ecommerce.Core.Models.{Model, alive}
use ecommerce.Inventory.{Inventory}
use ecommerce.Catalog.{Product, ProductVariant}
use ecommerce.Coupons.{Coupon}
use ecommerce.Cart.{Cart, CartItem}
use ecommerce.Orders.{Order, OrderItem, OrderEvent}
use ecommerce.Payments.{Payment}

pub record Db : Type 0 where
  pub inventory : Inventory
  pub products : List Product
  pub variants : List ProductVariant
  pub coupons : List Coupon
  pub carts : List Cart
  pub cart_items : List CartItem
  pub orders : List Order
  pub order_items : List OrderItem
  pub order_events : List OrderEvent
  pub payments : List Payment

-- `objects.get(…)`: exactly one living row.
abbrev pub the_one : {A : Type 0} → List A → Result A
the_one [] = err does_not_exist
the_one (a ∷ []) = ok a
the_one (a ∷ b ∷ rest) = err multiple_objects

unfoldable pub get_one : {A : Type 0} ⦃m : Model A⦄ → (A → Bool) → List A → Result A
get_one p t = the_one (filter_by p (alive t))

-- A call of the inventory's services inside a transaction over all tables.
abbrev pub on_inventory : {A : Type 0} → Exec Inventory A → Exec Db A
on_inventory m db = let (r, inv) = m db.inventory in (r, record db { inventory = inv })

abbrev pub lift : {A : Type 0} → (Db → Result A) → Exec Db A
lift f db = (f db, db)

-- What `get_or_create` does with the living rows that match: none is a new row, unless a unique
-- constraint also counts a row that is only hidden.
abbrev pub or_create : {A : Type 0} → Bool → A → List A → List A → Result A × List A
or_create clash new t [] = if clash then (err integrity_error, t) else (ok new, t ++ new ∷ [])
or_create clash new t (a ∷ []) = (ok a, t)
or_create clash new t (a ∷ b ∷ rest) = (err multiple_objects, t)

-- `objects.get_or_create(…)`: `here` is the query, and `clashes` what a unique constraint refuses.
unfoldable pub get_or_create :
    {A : Type 0} ⦃m : Model A⦄ → (A → Bool) → (A → Bool) → A → List A → Result A × List A
get_or_create here clashes new t = or_create (any clashes t) new t (filter_by here (alive t))

abbrev pub on_cart_items : {A : Type 0} → Exec (List CartItem) A → Exec Db A
on_cart_items m db = let (r, t) = m db.cart_items in (r, record db { cart_items = t })

abbrev pub on_carts : {A : Type 0} → Exec (List Cart) A → Exec Db A
on_carts m db = let (r, t) = m db.carts in (r, record db { carts = t })
