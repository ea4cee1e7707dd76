-- ===== src/Cart/Owning.antt =====
-- The cart of a user that `get_or_create` finds or makes: django_app/apps/cart/services.py.
use ecommerce.Prelude.{
  ℕ, ◌≡◌, ◌≢◌, refl, sym, ap, ◌∙◌, true, false, none, some, String, List, [], ◌∷◌, ◌++◌, any, arith,
  filter_by,
}
use ecommerce.Exec.{ok}
use ecommerce.Core.Models.{alive, lookup, Distinct, IsStored}
use ecommerce.Core.Models.Rows.{lookup-append_new}
use ecommerce.Core.Models.Updating.{lookup-append_other}
use ecommerce.Core.Permissions.{owned_by}
use ecommerce.Cart.{Cart, cart_model}
use ecommerce.Cart.Services.{no_clash, new_cart}
use ecommerce.Database.{get_or_create, or_create, get_one, the_one}
use ecommerce.Database.Queries.{get_one-ok}

-- The cart belongs to the user and is stored, and every cart that was stored still is.
pub record Owns (user : ℕ) (t : List Cart) (uc : Cart) (carts : List Cart) : Type 0 where
  pub owner : owned_by user uc.user ≡ true
  pub stored : IsStored carts uc
  pub keeps : (a : Cart) → IsStored t a → IsStored carts a

module _ (user fresh : ℕ) (currency : String) (t : List Cart) (distinct : Distinct t)
    (absent : lookup fresh t ≡ none) where
  none_clash : (s : List Cart) → any no_clash s ≡ false
  none_clash [] = refl
  none_clash (c ∷ s) = none_clash s

  abbrev new : Cart
  new = new_cart fresh (some user) "" currency

  of_new : Owns user t new (t ++ new ∷ [])
  of_new = record {
    owner = ground arith;
    stored = lookup-append_new new t absent;
    keeps = λ a there.
        let other : fresh ≢ a.id = λ e. absurd (ground (arith, ap (λ j. lookup j t) e)) in
        lookup-append_other a.id new t other ∙ there;
  }

  by_rows :
      (rows : List Cart)
      → filter_by (λ c. owned_by user c.user) (alive t) ≡ rows
      → (uc : Cart) → (carts : List Cart) → or_create false new t rows ≡ (ok uc, carts)
      → Owns user t uc carts
  unfolding get_one
  by_rows [] e uc carts done =
      let same : new ≡ uc = ground arith in
      let grown : t ++ new ∷ [] ≡ carts = ground arith in
      let held : Owns user t new carts = rw grown at of_new in rw same at held
  by_rows (a ∷ []) e uc carts done =
      let same : a ≡ uc = ground arith in
      let kept : t ≡ carts = ground arith in
      let (stored, lives, fits) =
        get_one-ok (λ c. owned_by user c.user) t uc distinct
          (ap the_one (e ∙ ap (λ x. x ∷ []) same)) in
      record { owner = fits; stored = rw kept at stored; keeps = λ b there. rw kept at there }
  by_rows (a ∷ b ∷ rows) e uc carts done = absurd (ground arith)

  pub Owns-get_or_create :
      (uc : Cart) (carts : List Cart)
      → get_or_create (λ c. owned_by user c.user) no_clash new t ≡ (ok uc, carts)
      → Owns user t uc carts
  unfolding get_or_create
  Owns-get_or_create uc carts done =
      by_rows (filter_by (λ c. owned_by user c.user) (alive t)) refl uc carts (
        ap (λ b. or_create b new t (filter_by (λ c. owned_by user c.user) (alive t)))
          (sym (none_clash t))
        ∙ done)
