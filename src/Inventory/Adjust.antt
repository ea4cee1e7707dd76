-- ===== src/Inventory/Adjust.antt =====
-- `adjust_stock` of django_app/apps/inventory/services.py, on a stock row that exists.
use ecommerce.Prelude.{ℕ, ◌≡◌, true, ◌&&◌, none, some, String, arith, ◌==◌, filter_by, head?}
use ecommerce.Prelude.Int.{ℤ, pos, ◌+ℤ◌, ◌≤ℤ◌, max_ℤ, int_laws}
use ecommerce.Exec.{ok, is_ok}
use ecommerce.Core.Models.{alive, IsStored}
use ecommerce.Core.Models.Rows.{lookup-save_self, All-lookup}
use ecommerce.Inventory.{
  Stock, stock_model, warehouse_model, Warehouse, adjustment, Inventory, adjust_stock, write,
}
use ecommerce.Inventory.Invariant.{IsCovered, IsValid}

-- The row after the change.
abbrev pub adjusted : Stock → ℤ → Stock
adjusted s delta = record s { on_hand = max_ℤ (s.on_hand +ℤ delta) (pos 0) }

module _ (fresh variant_id code : ℕ) (delta : ℤ) (note : String) (inv : Inventory) (w : Warehouse)
    (s : Stock)
    (found_warehouse : head? (filter_by (λ x. x.code == code) (alive inv.warehouses)) ≡ some w)
    (found_stock : head?
        (filter_by (λ x. x.variant == variant_id && x.warehouse == w.id) (alive inv.stocks))
      ≡ some s) where
  adjust_stock-eq :
      adjust_stock fresh variant_id code delta note inv
      ≡ (ok (adjusted s delta), write (adjusted s delta) delta adjustment none note inv)
  unfolding adjust_stock
  adjust_stock-eq = ground arith

  -- Where the warehouse and the stock row exist and the row is stored: an adjustment that would
  -- leave fewer units than are reserved succeeds all the same, and breaks the invariant that
  -- reserved units are on hand.
  pub adjust_stock_oversells :
      IsStored inv.stocks s
      → pos 1 ≤ℤ s.reserved
      → pos 1 +ℤ (s.on_hand +ℤ delta) ≤ℤ s.reserved
      → (is_ok (adjust_stock fresh variant_id code delta note inv).0 ≡ true)
        × ¬ IsValid (adjust_stock fresh variant_id code delta note inv).1
  unfolding write
  adjust_stock_oversells stored some_reserved short = (
    rw adjust_stock-eq,
    λ valid.
        let valid' : IsValid (write (adjusted s delta) delta adjustment none note inv) =
          rw adjust_stock-eq at valid in
        let covered : IsCovered (adjusted s delta) =
          All-lookup IsCovered s.id (adjusted s delta) _ valid'.covered
            (lookup-save_self (adjusted s delta) s inv.stocks stored) in
        omega (int_laws, covered.1),
  )
