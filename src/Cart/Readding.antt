-- ===== src/Cart/Readding.antt =====
-- `remove_item` and then `add_item` of the same variant: django_app/apps/cart/services.py, with the
-- unique constraint of django_app/apps/cart/models.py.
use ecommerce.Prelude.{
  ℕ, ◌≡◌, refl, ap, ◌∙◌, Bool, true, false, not, ◌&&◌, List, [], ◌∷◌, arith, ◌==◌, any, filter_by,
  filter_by-All,
}
use ecommerce.Prelude.Int.{ℤ, pos, ◌≤ℤ◌, leb_ℤ}
use ecommerce.Exec.{ok, err, integrity_error}
use ecommerce.Core.Models.{alive, delete_where}
use ecommerce.Core.Models.SoftDelete.{alive-delete_where}
use ecommerce.Catalog.{ProductVariant, variant_model}
use ecommerce.Cart.{Cart, CartItem, cart_item_model}
use ecommerce.Cart.Services.{in_place, new_item, add_item, adding, remove_item}
use ecommerce.Database.{Db, get_one, get_or_create}

-- The pair of a row does not depend on whether it is hidden.
any-delete_where :
    (now c v : ℕ) (p : CartItem → Bool) (t : List CartItem)
    → any (in_place c v) (delete_where now p t) ≡ any (in_place c v) t
unfolding delete_where
any-delete_where now c v p [] = refl
any-delete_where now c v p (it ∷ t) = ground (arith, any-delete_where now c v p t)

any_of_living :
    (c v : ℕ) (it : CartItem) (t : List CartItem)
    → filter_by (in_place c v) (alive t) ≡ it ∷ []
    → any (in_place c v) t ≡ true
unfolding alive
any_of_living c v it [] e = cc
any_of_living c v it (a ∷ t) e = ground (arith, any_of_living c v it t)

filter_by-commutes :
    (p q : CartItem → Bool) (t : List CartItem)
    → filter_by p (filter_by q t) ≡ filter_by q (filter_by p t)
filter_by-commutes p q [] = refl
filter_by-commutes p q (it ∷ t) = ground (arith, filter_by-commutes p q t)

module _ (now fresh : ℕ) (cart : Cart) (v : ℕ) (q : ℤ) (it : CartItem) (variant : ProductVariant)
    (db : Db) (only : filter_by (in_place cart.id v) (alive db.cart_items) ≡ it ∷ []) where
  abbrev removed : CartItem → Bool
  removed x = x.id == it.id && x.cart == cart.id

  here : in_place cart.id v it ≡ true
  here = (rw only at (filter_by-All (in_place cart.id v) (alive db.cart_items))).0

  gone : filter_by (λ x. not (removed x)) (it ∷ []) ≡ []
  gone = let h = here in ground arith

  none_left : filter_by (in_place cart.id v) (alive (delete_where now removed db.cart_items)) ≡ []
  none_left =
      ap (filter_by (in_place cart.id v)) (alive-delete_where now removed db.cart_items).0
      ∙ filter_by-commutes (in_place cart.id v) (λ x. not (removed x)) (alive db.cart_items)
      ∙ ap (filter_by (λ x. not (removed x))) only
      ∙ gone

  clashes :
      (new : CartItem)
      → get_or_create
          (in_place cart.id v)
          (in_place cart.id v)
          new
          (delete_where now removed db.cart_items)
        ≡ (err integrity_error, delete_where now removed db.cart_items)
  unfolding get_or_create
  clashes new =
      let held : any (in_place cart.id v) (delete_where now removed db.cart_items) ≡ true =
        any-delete_where now cart.id v removed db.cart_items
        ∙ any_of_living cart.id v it db.cart_items only in
      let none_ = none_left in ground arith

  -- A living item is the only one of its variant in its cart. It is removed, and then a positive
  -- quantity of that variant, which is still sold, is added: this always fails with an integrity
  -- error and leaves the cart without the variant, since the hidden row still holds the unique pair.
  pub add_item-remove_item :
      get_one (λ x. x.id == v && x.is_active) db.variants ≡ ok variant
      → pos 1 ≤ℤ q
      → let (r, db') = remove_item now cart it.id db in
        (r ≡ ok tt)
        × (filter_by (in_place cart.id v) (alive db'.cart_items) ≡ [])
        × (add_item fresh cart v q db' ≡ (err integrity_error, db'))
  unfolding remove_item add_item adding
  add_item-remove_item sold positive =
      let clash = clashes (new_item fresh cart.id v (pos 0) variant.price) in
      let some_units : leb_ℤ q (pos 0) ≡ false = ground arith in (refl, none_left, ground arith)
