-- ===== src/Cart/Units.antt =====
-- The units of a variant in a cart, and what `get_or_create` of a cart item leaves of them:
-- django_app/apps/cart/services.py.
use ecommerce.Prelude.{
  ℕ, ◌≡◌, refl, ap, ◌∙◌, inl, inr, true, ◌&&◌, none, List, [], ◌∷◌, ◌++◌, arith, if◌then◌else◌,
  Bool-cases, filter_by, any,
}
use ecommerce.Prelude.Int.{ℤ, pos, total, total-append, int_laws, eq_of_parts, parts_of_eq}
use ecommerce.Exec.{Result, ok}
use ecommerce.Core.Models.{alive, is_alive, lookup, Distinct, IsStored}
use ecommerce.Core.Models.Rows.{lookup-append_new, append-Distinct}
use ecommerce.Cart.{CartItem, cart_item_model}
use ecommerce.Cart.Services.{in_place, new_item}
use ecommerce.Database.{get_or_create, or_create, get_one, the_one}
use ecommerce.Database.Queries.{get_one-ok}

abbrev pub units_in : ℕ → ℕ → CartItem → ℤ
units_in c v it = if is_alive it && in_place c v it then it.quantity else pos 0

-- The units of a variant that the living items of a cart ask for.
unfoldable pub units : ℕ → ℕ → List CartItem → ℤ
units c v items = total (units_in c v) items

units-filter :
    (c v : ℕ) (t : List CartItem)
    → units c v t ≡ total (λ it. it.quantity) (filter_by (in_place c v) (alive t))
unfolding units total alive
units-filter c v [] = refl
units-filter c v (it ∷ t) = grind (int_laws, units-filter c v t)

units-append_none :
    (c v : ℕ) (new : CartItem) (t : List CartItem)
    → new.quantity ≡ pos 0
    → units c v (t ++ new ∷ []) ≡ units c v t
unfolding units total
units-append_none c v new t e =
    total-append (units_in c v) t (new ∷ []) ∙ eq_of_parts _ _ (grind (int_laws, parts_of_eq e))

total-none : total (λ (it : CartItem). it.quantity) [] ≡ pos 0
unfolding total
total-none = refl

total-one : (a : CartItem) → total (λ it. it.quantity) (a ∷ []) ≡ a.quantity
unfolding total
total-one a = eq_of_parts _ _ (omega int_laws)

-- The item that is found or created: it is stored, alive and in place, it holds all units of its
-- variant in the cart, and no units have changed.
pub record Holds (c v : ℕ) (a : CartItem) (t t' : List CartItem) : Type 0 where
  pub distinct : Distinct t'
  pub stored : IsStored t' a
  pub lives : is_alive a ≡ true
  pub placed : in_place c v a ≡ true
  pub same : (c' v' : ℕ) → units c' v' t' ≡ units c' v' t
  pub all_here : units c v t' ≡ a.quantity

module _ (fresh c v : ℕ) (price : ℤ) (t : List CartItem) (distinct : Distinct t)
    (absent : lookup fresh t ≡ none) where
  abbrev new : CartItem
  new = new_item fresh c v (pos 0) price

  abbrev got : Result CartItem × List CartItem
  got = get_or_create (in_place c v) (in_place c v) new t

  of_new : filter_by (in_place c v) (alive t) ≡ [] → Holds c v new t (t ++ new ∷ [])
  of_new e = record {
    distinct = append-Distinct new t distinct absent;
    stored = lookup-append_new new t absent;
    lives = refl;
    placed = ground arith;
    same = λ c' v'. units-append_none c' v' new t refl;
    all_here =
        units-append_none c v new t refl
        ∙ units-filter c v t
        ∙ ap (total (λ it. it.quantity)) e
        ∙ total-none;
  }

  of_found : (a : CartItem) → filter_by (in_place c v) (alive t) ≡ a ∷ [] → Holds c v a t t
  unfolding get_one
  of_found a e =
      let (stored, lives, fits) = get_one-ok (in_place c v) t a distinct (ap the_one e) in
      record {
        distinct = distinct;
        stored = stored;
        lives = lives;
        placed = fits;
        same = λ c' v'. refl;
        all_here = units-filter c v t ∙ ap (total (λ it. it.quantity)) e ∙ total-one a;
      }

  by_rows :
      (rows : List CartItem)
      → filter_by (in_place c v) (alive t) ≡ rows
      → (a : CartItem) → (or_create (any (in_place c v) t) new t rows).0 ≡ ok a
      → Holds c v a t (or_create (any (in_place c v) t) new t rows).1
  by_rows [] e a done = elim (Bool-cases (any (in_place c v) t)) [
    | inl clash ↦ absurd (ground arith)
    | inr free ↦ let same : new ≡ a = ground arith in rw free (rw (← same) (of_new e))
  ]
  by_rows (b ∷ []) e a done =
      let same : b ≡ a = ground arith in of_found a (e ∙ ap (λ x. x ∷ []) same)
  by_rows (b ∷ b' ∷ rows) e a done = cc

  pub Holds-get_or_create : (a : CartItem) → got.0 ≡ ok a → Holds c v a t got.1
  unfolding get_or_create
  Holds-get_or_create a done = by_rows (filter_by (in_place c v) (alive t)) refl a done
