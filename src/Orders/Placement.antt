-- ===== src/Orders/Placement.antt =====
-- The loop of `create_order_from_cart` in django_app/apps/orders/services.py that reserves the stock
-- and writes the order's items.
use ecommerce.Prelude.{
  ℕ, suc, ◌≡◌, refl, sym, ap, ◌∙◌, inl, inr, true, none, some, List, [], ◌∷◌, ◌++◌, arith,
  &&-eq_true, All,
}
use ecommerce.Prelude.Int.{ℤ, pos, ◌+ℤ◌, ◌≤ℤ◌, leb_ℤ, ltb_ℤ, total, int_laws, eq_of_parts}
use ecommerce.Exec.{ok, is_ok, Outcome-ok}
use mathlib.Core.List.{append-nil, append_assoc}
use ecommerce.Inventory.{reserve_stock}
use ecommerce.Inventory.Effects.{Moves}
use ecommerce.Inventory.Reserve.{reservable_units, is_ok-reserve_stock, reserve_stock-Moves}
use ecommerce.Inventory.Invariant.{IsValid, reserve_stock-IsValid}
use ecommerce.Cart.{CartItem, line_total}
use ecommerce.Orders.{OrderItem}
use ecommerce.Orders.Services.{snapshot, place_items}
use ecommerce.Orders.Demand.{
  Changes, portion, portion_zero, Changes-Moves, Changes-then, Changes-none,
}
use ecommerce.Database.{Db}
use ecommerce.Database.Queries.{Result-cases}

-- The units of a variant that the items of a cart ask for.
unfoldable pub wanted : ℕ → List CartItem → ℤ
unfolding portion
wanted v items = total (λ it. portion it.variant v it.quantity) items

-- The rows of an order repeat the items of the cart, one by one.
abbrev pub Mirrors : ℕ → List CartItem → List OrderItem → Type 0
Mirrors order [] [] = Unit
Mirrors order [] (r ∷ rows) = ⊥
Mirrors order (it ∷ items) [] = ⊥
Mirrors order (it ∷ items) (r ∷ rows) =
    (r.order ≡ order)
    × (r.variant ≡ some it.variant)
    × (r.quantity ≡ it.quantity)
    × (r.unit_price ≡ it.unit_price)
    × (r.line_total ≡ line_total it)
    × (r.deleted_at ≡ none)
    × Mirrors order items rows

module _ (fresh order : ℕ) (it : CartItem) (rest : List CartItem) (db : Db) where
  abbrev reserved_db : Db
  reserved_db = record db {
    inventory = (reserve_stock it.variant it.quantity (some order) db.inventory).1;
  }

  place_items-cons :
      is_ok (place_items fresh order (it ∷ rest) db).0 ≡ true
      → (is_ok (reserve_stock it.variant it.quantity (some order) db.inventory).0 ≡ true)
        × ((row : OrderItem) × (snapshot fresh order it reserved_db ≡ ok row)
            × (place_items fresh order (it ∷ rest) db
                ≡ place_items
                    (suc fresh)
                    order
                    rest
                    (record reserved_db { order_items = db.order_items ++ row ∷ [] })))
  unfolding place_items
  place_items-cons h =
      elim (Result-cases (reserve_stock it.variant it.quantity (some order) db.inventory).0) [
        | inl (a, reserved) ↦ elim (Result-cases (snapshot fresh order it reserved_db)) [
          | inl (row, e) ↦ (ap is_ok reserved, (row, e, ground arith))
          | inr (c, e) ↦ absurd (ground arith)
        ]
        | inr (c, e) ↦ absurd (ground arith)
      ]

snapshot-Mirrors :
    (fresh order : ℕ) (it : CartItem) (db : Db) (row : OrderItem)
    → snapshot fresh order it db ≡ ok row
    → Mirrors order (it ∷ []) (row ∷ [])
unfolding snapshot
snapshot-Mirrors fresh order it db row e = ground arith

-- What the loop has done when it returns.
pub record Places (order : ℕ) (items : List CartItem) (db db' : Db) : Type 0 where
  pub rows : List OrderItem
  pub mirrored : Mirrors order items rows
  pub valid : IsValid db'.inventory
  pub changes : Changes (λ v. wanted v items) (λ v. pos 0) db.inventory db'.inventory
  pub written : db' ≡ record db { inventory = db'.inventory; order_items = db.order_items ++ rows }
  pub positive : All (λ it. pos 1 ≤ℤ it.quantity) items

wanted-nil : (v : ℕ) → wanted v [] ≡ pos 0
unfolding wanted total
wanted-nil v = refl

wanted-cons :
    (v : ℕ) (it : CartItem) (rest : List CartItem)
    → wanted v (it ∷ rest) ≡ portion it.variant v it.quantity +ℤ wanted v rest
unfolding wanted total
wanted-cons v it rest = refl

-- From valid stock, a loop that returns has reserved what the items ask for, has written one order
-- item for each, and has touched no other table.
pub place_items-Places :
    (fresh order : ℕ) (items : List CartItem) (db : Db)
    → IsValid db.inventory
    → is_ok (place_items fresh order items db).0 ≡ true
    → Places order items db (place_items fresh order items db).1
place_items-Places fresh order [] db valid h =
    unfold place_items in
    (record {
      rows = [];
      mirrored = tt;
      valid = valid;
      changes = Changes-none _ _ db.inventory wanted-nil (λ v. refl);
      written = ap (λ t. record db { order_items = t }) (sym (append-nil db.order_items));
      positive = tt;
    })
place_items-Places fresh order (it ∷ rest) db valid h =
    let (reserved, step) = place_items-cons fresh order it rest db h in
    let (row, e, same) = step in
    let q = it.quantity in
    let call = reserve_stock it.variant q (some order) db.inventory in
    let valid' = reserve_stock-IsValid it.variant db.inventory valid q (some order) in
    let moves =
      Outcome-ok db.inventory (Moves it.variant q (pos 0) db.inventory) call
        (reserve_stock-Moves it.variant q (some order) db.inventory valid.distinct) reserved in
    let next : Db = record db { inventory = call.1; order_items = db.order_items ++ row ∷ [] } in
    let p =
      place_items-Places (suc fresh) order rest next valid' (ap (λ r. is_ok r.0) (sym same) ∙ h) in
    let after = (place_items (suc fresh) order rest next).1 in
    let m = snapshot-Mirrors fresh order it _ row e in
    let some_units : ltb_ℤ (pos 0) q ≡ true =
      (&&-eq_true (ltb_ℤ (pos 0) q) (leb_ℤ q (reservable_units it.variant db.inventory))
        (sym (is_ok-reserve_stock it.variant q (some order) db.inventory) ∙ reserved)).0 in
    rw same (record {
      rows = row ∷ p.rows;
      mirrored = (m.0, m.1, m.2, m.3, m.4, m.5, p.mirrored);
      valid = p.valid;
      changes =
          Changes-then (Changes-Moves moves) p.changes (λ v. sym (wanted-cons v it rest))
            (λ v.
              ap (λ t. t +ℤ pos 0) (portion_zero it.variant v) ∙ eq_of_parts _ _ (omega int_laws));
      written =
          p.written
          ∙ ap (λ t. record next { inventory = after.inventory; order_items = t })
              (append_assoc db.order_items (row ∷ []) p.rows);
      positive = (omega (int_laws, some_units), p.positive);
    })
