-- ===== src/Tests/Stock.antt =====
-- The theorems on stock, at concrete inputs.
use ecommerce.Prelude.{
  ℕ, ◌≡◌, refl, Bool, true, false, Option, none, some, List, [], ◌∷◌, ◌++◌, ◌&&◌, ◌↔◌,
}
use ecommerce.Prelude.Int.{ℤ, pos, negsuc, ◌-ℤ◌, ◌+ℤ◌, ◌≤ℤ◌, int_laws, leb_ℤ, ltb_ℤ, min_ℤ}
use ecommerce.Exec.{is_ok, Outcome}
use ecommerce.Inventory.{
  reservation, reserve_stock, commit_sale, release_reservation, adjust_stock, StockMovement,
  adjustment, stock_model,
}
use ecommerce.Inventory.Effects.{reserved_total, Moves}
use ecommerce.Inventory.Reserve.{reservable_units, is_ok-reserve_stock}
use ecommerce.Inventory.Audit.{Records, reserve_stock-Records}
use ecommerce.Inventory.Commit.{is_ok-commit_sale}
use ecommerce.Inventory.Invariant.{IsValid}
use ecommerce.Inventory.Sequences.{
  commit_sale-reserve_stock, release_reservation-reserve_stock, reserve, release, commit,
  perform_all, perform_all-IsValid,
}
use ecommerce.Core.Models.{lookup}
use ecommerce.Tests.{inventory, inventory-IsValid}

is_ok-reserve_stock_example :
    is_ok (reserve_stock 7 (pos 3) none inventory).0
    ≡ (ltb_ℤ (pos 0) (pos 3) && leb_ℤ (pos 3) (reservable_units 7 inventory))
is_ok-reserve_stock_example = is_ok-reserve_stock 7 (pos 3) none inventory

reserve_stock-Records_example :
    Outcome inventory
      (λ inv'.
        Moves 7 (pos 3) (pos 0) inventory inv'
        × Records reservation none (pos 0 -ℤ pos 3) inventory inv')
      (reserve_stock 7 (pos 3) none inventory)
unfolding ecommerce.Core.Models.lookup
reserve_stock-Records_example = reserve_stock-Records 7 (pos 3) none inventory (refl, tt)

is_ok-commit_sale_example :
    is_ok (commit_sale 7 (pos 2) none inventory).0 ≡ leb_ℤ (pos 2) (reserved_total 7 inventory)
is_ok-commit_sale_example =
    is_ok-commit_sale 7 (pos 2) none inventory inventory-IsValid (omega int_laws)

commit_sale-reserve_stock_example :
    let (r, inv') = commit_sale 7 (pos 3) (some 1) (reserve_stock 7 (pos 3) (some 1) inventory).1 in
    (is_ok r ≡ true) × Moves 7 (pos 0) (pos 0 -ℤ pos 3) inventory inv'
unfolding reserve_stock ecommerce.Inventory.reservable ecommerce.Core.Models.Sorting.order_by
    ecommerce.Core.Models.alive ecommerce.Core.Models.lookup min_ℤ ecommerce.Inventory.available
    ecommerce.Prelude.Int.max_ℤ ◌-ℤ◌
commit_sale-reserve_stock_example =
    commit_sale-reserve_stock 7 (pos 3) (some 1) inventory inventory-IsValid refl

release_reservation-reserve_stock_example :
    Moves 7
      (pos 0)
      (pos 0)
      inventory
      (release_reservation 7 (pos 3) (some 1) (reserve_stock 7 (pos 3) (some 1) inventory).1).1
unfolding reserve_stock ecommerce.Inventory.reservable ecommerce.Core.Models.Sorting.order_by
    ecommerce.Core.Models.alive ecommerce.Core.Models.lookup min_ℤ ecommerce.Inventory.available
    ecommerce.Prelude.Int.max_ℤ ◌-ℤ◌
release_reservation-reserve_stock_example =
    release_reservation-reserve_stock 7 (pos 3) (some 1) inventory inventory-IsValid refl

perform_all-IsValid_example : IsValid (
    perform_all inventory
      (reserve 7 (pos 4) (some 1) ∷ commit 7 (pos 4) (some 1) ∷ release 7 (pos 9) none ∷ []))
perform_all-IsValid_example =
    perform_all-IsValid inventory
      (reserve 7 (pos 4) (some 1) ∷ commit 7 (pos 4) (some 1) ∷ release 7 (pos 9) none ∷ [])
      inventory-IsValid
