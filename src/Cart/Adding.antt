-- ===== src/Cart/Adding.antt =====
-- `add_item` of django_app/apps/cart/services.py.
use ecommerce.Prelude.{
  ℕ, ◌≡◌, refl, sym, ap, ◌∙◌, inl, inr, true, false, ◌&&◌, none, List, arith, ◌==◌, Bool-cases,
}
use ecommerce.Prelude.Int.{ℤ, pos, ◌+ℤ◌, ◌≤ℤ◌, ltb_ℤ, leb_ℤ, int_laws, eq_of_parts, parts_of_eq}
use ecommerce.Exec.{
  Result, ok, is_ok, Outcome, Returns, Returns-intro, Returns-failed, Returns-Outcome,
  atomic-failed,
}
use ecommerce.Core.Models.{lookup, Distinct, IsStored, save}
use ecommerce.Core.Models.Rows.{total-save, save-Distinct, lookup-save_self}
use ecommerce.Inventory.{get_available}
use ecommerce.Catalog.{ProductVariant, variant_model}
use ecommerce.Cart.{Cart, CartItem, cart_item_model}
use ecommerce.Cart.Services.{in_place, new_item, adding, add_item}
use ecommerce.Cart.Units.{units, units_in, Holds, Holds-get_or_create}
use ecommerce.Database.{Db, get_one, get_or_create}
use ecommerce.Database.Queries.{Result-cases}

-- What an addition that returns has done.
pub record Adds (cart : Cart) (v : ℕ) (q : ℤ) (db : Db) (item : CartItem) (db' : Db) : Type 0 where
  pub distinct : Distinct db'.cart_items
  pub stored : IsStored db'.cart_items item
  pub placed : in_place cart.id v item ≡ true
  pub positive : pos 1 ≤ℤ q
  pub added : units cart.id v db'.cart_items ≡ units cart.id v db.cart_items +ℤ q
  pub item_holds_all : item.quantity ≡ units cart.id v db'.cart_items
  pub within : units cart.id v db'.cart_items ≤ℤ get_available v db.inventory
  pub others :
      (c' v' : ℕ)
      → (c' == cart.id && v' == v) ≡ false
      → units c' v' db'.cart_items ≡ units c' v' db.cart_items
  pub only_items : db' ≡ record db { cart_items = db'.cart_items }

module _ (fresh : ℕ) (cart : Cart) (v : ℕ) (q : ℤ) (db : Db) where
  abbrev row : ProductVariant → CartItem
  row variant = new_item fresh cart.id v (pos 0) variant.price

  abbrev got : ProductVariant → Result CartItem × List CartItem
  got variant = get_or_create (in_place cart.id v) (in_place cart.id v) (row variant) db.cart_items

  abbrev raised_item : ProductVariant → CartItem → CartItem
  raised_item variant a = record a { quantity = a.quantity +ℤ q; unit_price = variant.price }

  add_item-ok :
      is_ok (add_item fresh cart v q db).0 ≡ true
      → (leb_ℤ q (pos 0) ≡ false)
        × ((variant : ProductVariant) × (get_one (λ x. x.id == v && x.is_active) db.variants
              ≡ ok variant)
            × ((a : CartItem) × ((got variant).0 ≡ ok a)
                × (ltb_ℤ (get_available v db.inventory) (a.quantity +ℤ q) ≡ false)
                × (add_item fresh cart v q db ≡ (
                  ok (raised_item variant a),
                  record db { cart_items = save (raised_item variant a) (got variant).1 },
                ))))
  unfolding add_item
  add_item-ok h = elim (Result-cases (get_one (λ x. x.id == v && x.is_active) db.variants)) [
    | inl (variant, found) ↦ elim (Result-cases (got variant).0) [
      | inl (a, here) ↦ (ground arith, (variant, found, (a, here, ground arith, ground arith)))
      | inr (e, bad) ↦ absurd (ground arith)
    ]
    | inr (e, missing) ↦ absurd (ground arith)
  ]

  -- The units after a row's quantity is raised, for the row that holds its variant in its cart.
  raised :
      (variant : ProductVariant) (a : CartItem) (t : List CartItem) (c' v' : ℕ)
      → Distinct t
      → IsStored t a
      → units c' v' (save (raised_item variant a) t) +ℤ units_in c' v' a
        ≡ units c' v' t +ℤ units_in c' v' (raised_item variant a)
  unfolding units
  raised variant a t c' v' distinct stored =
      total-save (units_in c' v') (raised_item variant a) a t distinct stored

  failed : is_ok (add_item fresh cart v q db).0 ≡ false → (add_item fresh cart v q db).1 ≡ db
  unfolding add_item
  failed = atomic-failed (adding fresh cart v q) db

  here_parts :
      (variant : ProductVariant) (a : CartItem) (t' : List CartItem)
      → Holds cart.id v a db.cart_items t'
      → units cart.id v (save (raised_item variant a) t') ≡ units cart.id v db.cart_items +ℤ q
  here_parts variant a t' holds =
      let moved = raised variant a t' cart.id v holds.distinct holds.stored in
      let same = holds.same cart.id v in
      let here : units_in cart.id v a ≡ a.quantity = rw (holds.lives, holds.placed) refl in
      let here' : units_in cart.id v (raised_item variant a) ≡ a.quantity +ℤ q =
        rw (holds.lives, holds.placed) refl in
      eq_of_parts _ _
        (omega (int_laws, parts_of_eq moved, parts_of_eq same, parts_of_eq here, parts_of_eq here'))

  elsewhere :
      (variant : ProductVariant) (a : CartItem) (t' : List CartItem)
      → Holds cart.id v a db.cart_items t'
      → (c' v' : ℕ) → (c' == cart.id && v' == v) ≡ false
      → units c' v' (save (raised_item variant a) t') ≡ units c' v' db.cart_items
  elsewhere variant a t' holds c' v' ne =
      let moved = raised variant a t' c' v' holds.distinct holds.stored in
      let same = holds.same c' v' in
      let placed = holds.placed in
      let away : in_place c' v' a ≡ false = ground arith in
      let none_ : units_in c' v' a ≡ pos 0 = ground arith in
      let none' : units_in c' v' (raised_item variant a) ≡ pos 0 = ground arith in
      eq_of_parts _ _ (
        omega (int_laws, parts_of_eq moved, parts_of_eq same, parts_of_eq none_, parts_of_eq none'))

  -- Where no item's key is used twice and the new key is unused: an addition that returns had a
  -- positive quantity. It returns the stored item of the variant in the cart, which holds all units of
  -- it there; these have grown by the quantity and are at most the units that are available. The units
  -- of every other variant and cart, and every other table, are as they were. An addition that raises
  -- changes nothing.
  pub add_item-Returns :
      Distinct db.cart_items
      → lookup fresh db.cart_items ≡ none
      → Returns db (Adds cart v q db) (add_item fresh cart v q db)
  add_item-Returns distinct absent = elim (Bool-cases (is_ok (add_item fresh cart v q db).0)) [
    | inr h ↦ Returns-failed db (Adds cart v q db) (add_item fresh cart v q db) h (failed h)
    | inl h ↦
        let (positive, rest) = add_item-ok h in
        let (variant, found, more) = rest in
        let (a, here, within, result) = more in
        let t' = (got variant).1 in
        let holds : Holds cart.id v a db.cart_items t' =
          Holds-get_or_create fresh cart.id v variant.price db.cart_items distinct absent a here in
        let item = raised_item variant a in
        let added : units cart.id v (save item t') ≡ units cart.id v db.cart_items +ℤ q =
          here_parts variant a t' holds in
        let total_eq : item.quantity ≡ units cart.id v (save item t') =
          ap (λ x. x +ℤ q) (sym holds.all_here ∙ holds.same cart.id v) ∙ sym added in
        Returns-intro db (Adds cart v q db) (add_item fresh cart v q db) item
          (record db { cart_items = save item t' }) result
          (record {
            distinct = save-Distinct item t' holds.distinct;
            stored = lookup-save_self item a t' holds.stored;
            placed = holds.placed;
            positive = omega (int_laws, positive);
            added = added;
            item_holds_all = total_eq;
            within = rw (← total_eq) (omega (int_laws, within));
            others = λ c' v' ne. elsewhere variant a t' holds c' v' ne;
            only_items = refl;
          })
  ]

  pub add_item-Outcome :
      Distinct db.cart_items
      → lookup fresh db.cart_items ≡ none
      → Outcome db
          (λ db'. (item : CartItem) × Adds cart v q db item db')
          (add_item fresh cart v q db)
  add_item-Outcome distinct absent =
      Returns-Outcome db (Adds cart v q db) _ (add_item fresh cart v q db) (λ item db' h. (item, h))
        (add_item-Returns distinct absent)
