-- ===== src/Cart/Rounds.antt =====
-- The loop of `merge_anonymous_into_user` of django_app/apps/cart/services.py.
use ecommerce.Prelude.{
  ℕ, suc, ◌≡◌, refl, sym, ap, ◌∙◌, ◌≤◌, inl, inr, Bool, true, false, ◌&&◌, Option, none, some, List,
  [], ◌∷◌, ◌++◌, ◌==◌, any, head?, filter_by, filter_by-All, filter_by-filter_by, arith, All,
  if◌then◌else◌, Bool-cases, &&-eq_true,
}
use ecommerce.Prelude.Int.{ℤ, pos, ◌+ℤ◌, total, total-append, int_laws, eq_of_parts, parts_of_eq}
use ecommerce.Exec.{Result, ok, err, bind_ok, bind_err}
use ecommerce.Core.Models.{alive, is_alive, lookup, Distinct, IsStored, save}
use ecommerce.Core.Models.Rows.{
  total-save, save-Distinct, append-Distinct, lookup-save-none, filter-IsStored,
}
use ecommerce.Core.Models.Updating.{lookup-append_other}
use ecommerce.Catalog.{ProductVariant, variant_model}
use ecommerce.Cart.{Cart, CartItem, cart_item_model, cart_model, items_of}
use ecommerce.Cart.Services.{
  in_place, new_item, reached, existing_item, merge_with, merge_one, merge_items,
}
use ecommerce.Cart.Units.{units, units_in}
use ecommerce.Database.{Db, lift}

-- What a quantity of a variant in a cart adds to the units of another.
abbrev pub gain : ℕ → ℕ → ℤ → ℕ → ℕ → ℤ
gain c v q c' v' = if c == c' && v == v' then q else pos 0

-- The keys from `fresh` on are unused.
abbrev pub IsFree : ℕ → List CartItem → Type 0
IsFree fresh t = (j : ℕ) → fresh ≤ j → lookup j t ≡ none

-- The units of the table `t'` are those of `t` with a gain.
pub record Gains (fresh : ℕ) (g : ℕ → ℕ → ℤ) (t t' : List CartItem) : Type 0 where
  pub distinct : Distinct t'
  pub free : IsFree fresh t'
  pub gained : (c v : ℕ) → units c v t' ≡ units c v t +ℤ g c v

first_row :
    (c v : ℕ) (t : List CartItem) (e : CartItem)
    → Distinct t
    → head? (filter_by (in_place c v) (alive t)) ≡ some e
    → IsStored t e × (is_alive e ≡ true) × (in_place c v e ≡ true)
unfolding alive
first_row c v t e distinct found =
    let q = λ (x : CartItem). is_alive x && in_place c v x in
    let found' : head? (filter_by q t) ≡ some e =
      ap head? (sym (filter_by-filter_by is_alive (in_place c v) t)) ∙ found in
    let (lives, fits) =
      &&-eq_true (is_alive e) (in_place c v e)
        (of_head (λ x. q x ≡ true) (filter_by q t) (filter_by-All q t) found') in
    (of_head (IsStored t) (filter_by q t) (filter-IsStored q t distinct) found', lives, fits)
  where
    of_head :
        (P : CartItem → Type 0) (rows : List CartItem) → All P rows → head? rows ≡ some e → P e
    of_head P [] h k = absurd (ground arith)
    of_head P (a ∷ rows) h k = let same : a ≡ e = ground arith in rw same at h.0

if_more :
    (x y b : Bool) (q r : ℤ)
    → x ≡ true
    → y ≡ b
    → (if x && y then q +ℤ r else pos 0) ≡ (if x && y then q else pos 0) +ℤ (if b then r else pos 0)
if_more x y true q r h k = rw (h, k) refl
if_more x y false q r h k = rw (h, k) (eq_of_parts _ _ (omega int_laws))

module _ (fresh : ℕ) (uc : Cart) (item : CartItem) (price : ℤ) (t : List CartItem)
    (distinct : Distinct t) (free : IsFree fresh t) where
  abbrev g : ℕ → ℕ → ℤ
  g = gain uc.id item.variant item.quantity

  abbrev more : CartItem → CartItem
  more e = record e { quantity = e.quantity +ℤ item.quantity; unit_price = price }

  keys :
      (e : CartItem) (c v : ℕ)
      → in_place uc.id item.variant e ≡ true
      → in_place c v e ≡ (uc.id == c && item.variant == v)
  keys e c v fits =
      let (cart, variant) = &&-eq_true (e.cart == uc.id) (e.variant == item.variant) fits in
      let same_cart : e.cart ≡ uc.id = ground arith in
      let same_variant : e.variant ≡ item.variant = ground arith in
      rw (same_cart, same_variant) refl

  of_save :
      (e : CartItem)
      → head? (filter_by (in_place uc.id item.variant) (alive t)) ≡ some e
      → Gains (suc fresh) g t (save (more e) t)
  unfolding units
  of_save e found =
      let (stored, lives, fits) = first_row uc.id item.variant t e distinct found in
      record {
        distinct = save-Distinct (more e) t distinct;
        free = λ j le. lookup-save-none j (more e) t (free j (omega arith));
        gained = λ c v.
            let moved = total-save (units_in c v) (more e) e t distinct stored in
            let row : units_in c v (more e) ≡ units_in c v e +ℤ g c v =
              if_more (is_alive e) (in_place c v e) (uc.id == c && item.variant == v) e.quantity
                item.quantity lives (keys e c v fits) in
            eq_of_parts _ _ (omega (int_laws, parts_of_eq moved, parts_of_eq row));
      }

  abbrev new : CartItem
  new = new_item fresh uc.id item.variant item.quantity price

  of_append : Gains (suc fresh) g t (t ++ new ∷ [])
  unfolding units total
  of_append = record {
    distinct = append-Distinct new t distinct (free fresh (omega arith));
    free = λ j le. lookup-append_other j new t (omega arith) ∙ free j (omega arith);
    gained = λ c v.
        let moved = total-append (units_in c v) t (new ∷ []) in
        eq_of_parts _ _ (omega (int_laws, parts_of_eq moved));
  }

-- What a round of the merge leaves, if it returns.
abbrev Merged : ℕ → Cart → CartItem → Db → Result (Unit {0}) × Db → Type 0
Merged fresh uc item db (err e, db') = Unit
Merged fresh uc item db (ok u, db') =
    Gains (suc fresh) (gain uc.id item.variant item.quantity) db.cart_items db'.cart_items
    × (db' ≡ record db { cart_items = db'.cart_items })

module _ (fresh : ℕ) (uc : Cart) (item : CartItem) (db : Db) (distinct : Distinct db.cart_items)
    (free : IsFree fresh db.cart_items) where
  with_variant :
      (v : ProductVariant) (existing : Option CartItem)
      → existing_item uc item db ≡ existing
      → Merged fresh uc item db (merge_with fresh uc item v existing db)
  with_variant v (some x) h = (of_save fresh uc item v.price db.cart_items distinct free x h, refl)
  with_variant v none h = elim (Bool-cases (any (in_place uc.id item.variant) db.cart_items)) [
    | inl clash ↦ rw clash tt
    | inr clear ↦ rw clear (of_append fresh uc item v.price db.cart_items distinct free, refl)
  ]

  by_variant :
      (r : Result ProductVariant)
      → reached (lookup item.variant db.variants) ≡ r
      → Merged fresh uc item db (merge_one fresh uc item db)
  unfolding merge_one
  by_variant (err e) h =
      rw
        (bind_err (lift (λ d. reached (lookup item.variant d.variants))) _ db db e
          (ap (λ r. (r, db)) h))
        tt
  by_variant (ok v) h =
      rw
        (bind_ok (lift (λ d. reached (lookup item.variant d.variants))) _ db db v
          (ap (λ r. (r, db)) h))
        (with_variant v (existing_item uc item db) refl)

  merge_one-Merged : Merged fresh uc item db (merge_one fresh uc item db)
  merge_one-Merged = by_variant (reached (lookup item.variant db.variants)) refl

module _ (uc : Cart) where
  abbrev pub gains : List CartItem → ℕ → ℕ → ℤ
  gains items c v = total (λ it. gain uc.id it.variant it.quantity c v) items

  -- What the loop of the merge leaves, if it returns.
  abbrev pub MergedAll : List CartItem → Db → Result (Unit {0}) × Db → Type 0
  MergedAll items db (err e, db') = Unit
  MergedAll items db (ok u, db') =
      ((c v : ℕ) → units c v db'.cart_items ≡ units c v db.cart_items +ℤ gains items c v)
      × (db' ≡ record db { cart_items = db'.cart_items })

  then_rest :
      (item : CartItem) (rest : List CartItem) (db db1 : Db) (fresh : ℕ)
      → Merged fresh uc item db (ok tt, db1)
      → (r : Result (Unit {0}) × Db) → MergedAll rest db1 r
      → MergedAll (item ∷ rest) db r
  unfolding total
  then_rest item rest db db1 fresh h (err e, db') k = tt
  then_rest item rest db db1 fresh (g, only) (ok u, db') (gained, only') = (
    (λ c v.
        eq_of_parts _ _ (omega (int_laws, parts_of_eq (gained c v), parts_of_eq (g.gained c v)))),
    only' ∙ ap (λ (s : Db). record s { cart_items = db'.cart_items }) only,
  )

  by_round :
      (item : CartItem) (rest : List CartItem) (fresh : ℕ) (db : Db)
      → ((db1 : Db)
          → Distinct db1.cart_items
          → IsFree (suc fresh) db1.cart_items
          → MergedAll rest db1 (merge_items (suc fresh) uc rest db1))
      → (r : Result (Unit {0}) × Db) → merge_one fresh uc item db ≡ r
      → Merged fresh uc item db r
      → MergedAll (item ∷ rest) db (merge_items fresh uc (item ∷ rest) db)
  unfolding merge_items
  by_round item rest fresh db later (err e, db1) eq h =
      rw (bind_err (merge_one fresh uc item) _ db db1 e eq) tt
  by_round item rest fresh db later (ok u, db1) eq h =
      rw (bind_ok (merge_one fresh uc item) _ db db1 u eq) (
        then_rest item rest db db1 fresh h (merge_items (suc fresh) uc rest db1)
          (later db1 h.0.distinct h.0.free))

  pub merge_items-MergedAll :
      (items : List CartItem) (fresh : ℕ) (db : Db)
      → Distinct db.cart_items
      → IsFree fresh db.cart_items
      → MergedAll items db (merge_items fresh uc items db)
  unfolding merge_items total
  merge_items-MergedAll [] fresh db distinct free =
      ((λ c v. eq_of_parts _ _ (omega int_laws)), refl)
  merge_items-MergedAll (item ∷ rest) fresh db distinct free =
      by_round item rest fresh db
        (λ db1 distinct' free'. merge_items-MergedAll rest (suc fresh) db1 distinct' free')
        (merge_one fresh uc item db) refl (merge_one-Merged fresh uc item db distinct free)

-- The items of a cart add its units to those of another, and nothing anywhere else.
pub gains_self :
    (a c v : ℕ) (t : List CartItem)
    → total (λ it. gain c it.variant it.quantity c v) (items_of a t) ≡ units a v t
unfolding items_of units total alive
gains_self a c v [] = refl
gains_self a c v (it ∷ t) = grind (int_laws, gains_self a c v t)

pub gains_other :
    (c c' v : ℕ) (items : List CartItem)
    → (c' == c) ≡ false
    → total (λ it. gain c it.variant it.quantity c' v) items ≡ pos 0
unfolding total
gains_other c c' v [] ne = refl
gains_other c c' v (it ∷ items) ne =
    eq_of_parts _ _ (grind (int_laws, parts_of_eq (gains_other c c' v items ne)))
