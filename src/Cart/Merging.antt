-- ===== src/Cart/Merging.antt =====
-- `merge_anonymous_into_user` of django_app/apps/cart/services.py.
use text.Mathlib.Text.{◌==◌ as str_eq}
use ecommerce.Prelude.{ℕ, suc, ◌≡◌, Bool, true, false, ◌&&◌, Option, none, some, String, ◌==◌}
use ecommerce.Prelude.Int.{◌+ℤ◌}
use ecommerce.Exec.{Exec, Result, ok, err}
use ecommerce.Core.Models.{Distinct, IsStored, lookup}
use ecommerce.Catalog.{variant_model}
use ecommerce.Cart.{Cart, cart_item_model, cart_model}
use ecommerce.Cart.Services.{is_anonymous, no_clash, new_cart}
use ecommerce.Cart.Units.{units}
use ecommerce.Core.Permissions.{owned_by}
use ecommerce.Database.{Db, get_one, get_or_create, on_carts}
use ecommerce.Cart.Rounds.{IsFree}

-- What a merge into the cart `uc` has done: it is the user's, its units have grown by those of the
-- anonymous cart, and that one is hidden.
pub record Merges (now user : ℕ) (anon uc : Cart) (db db' : Db) : Type 0 where
  pub owner : owned_by user uc.user ≡ true
  pub stored : lookup uc.id db'.carts ≡ some uc
  pub hidden : lookup anon.id db'.carts ≡ some (record anon { deleted_at = some now })
  pub gained :
      (v : ℕ)
      → units uc.id v db'.cart_items ≡ units uc.id v db.cart_items +ℤ units anon.id v db.cart_items
  pub others : (c v : ℕ) → (c == uc.id) ≡ false → units c v db'.cart_items ≡ units c v db.cart_items
  pub only_carts : db' ≡ record db { carts = db'.carts; cart_items = db'.cart_items }

-- The carts that `get` looks among: those without a user, of the session.
abbrev pub of_session : String → Cart → Bool
of_session session_key c = str_eq c.session_key session_key && is_anonymous c.user

-- The three ways in which a merge may end.
abbrev pub MergeEnds : ℕ → ℕ → String → Db → Result (Option Cart) × Db → Type 0
MergeEnds now user session_key db (err e, db') = db' ≡ db
MergeEnds now user session_key db (ok none, db') = db' ≡ db
MergeEnds now user session_key db (ok (some uc), db') =
    (anon : Cart) × (get_one (of_session session_key) db.carts ≡ ok anon)
    × Merges now user anon uc db db'

module _ (now fresh user : ℕ) (db : Db) (distinct : Distinct db.cart_items)
    (free : IsFree (suc fresh) db.cart_items) (carts_distinct : Distinct db.carts)
    (absent : lookup fresh db.carts ≡ none) where
  -- The same before the transaction ends.
  abbrev Raw : Cart → Result (Option Cart) × Db → Type 0
  Raw anon (err e, db') = Unit
  Raw anon (ok none, db') = ⊥
  Raw anon (ok (some uc), db') = Merges now user anon uc db db'

  module _ (anon : Cart) (there : IsStored db.carts anon)
      (nobody : is_anonymous anon.user ≡ true) where
    abbrev cart_of_user : Exec Db Cart
    cart_of_user = on_carts (
        get_or_create (λ c. owned_by user c.user) no_clash
          (new_cart fresh (some user) "" anon.currency))
