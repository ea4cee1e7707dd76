-- ===== src/Inventory/Invariant.antt =====
-- No oversell: every unit that is reserved is on hand. The service calls of
-- django_app/apps/inventory/services.py that serve orders keep this, in any sequence.
use ecommerce.Prelude.{ℕ, Option, List, [], ◌∷◌, arith, All, filter_by-keeps-All}
use ecommerce.Prelude.Int.{ℤ, pos, ◌≤ℤ◌, min_ℤ, int_laws}
use ecommerce.Core.Models.{Distinct, alive}
use ecommerce.Core.Models.Rows.{save-Distinct, save-All}
use ecommerce.Core.Models.Sorting.{order_by-All}
use ecommerce.Inventory.{
  Stock, stock_model, Inventory, available, write, reservable, reserved_rows, reserve_stock,
  release_reservation, commit_sale,
}
use ecommerce.Inventory.Allocation.{Rule, allocate, allocate-induct}
use ecommerce.Inventory.Rules.{
  reserve_rule, release_rule, commit_rule, reserve_loop-eq, release_loop-eq, commit_loop-eq,
}

-- The reserved units of a row are not negative, and they are on hand.
abbrev pub IsCovered : Stock → Type 0
IsCovered s = (pos 0 ≤ℤ s.reserved) × (s.reserved ≤ℤ s.on_hand)

pub record IsValid (inv : Inventory) : Type 0 where
  pub distinct : Distinct inv.stocks
  pub covered : All IsCovered inv.stocks

-- A rule keeps a covered row covered.
abbrev Keeps : Rule → Type 0
Keeps r =
    (s : Stock) (n : ℤ) → pos 1 ≤ℤ n → IsCovered s → IsCovered (r.taken (min_ℤ (r.offer s) n) s)

reserve-Keeps : Keeps reserve_rule
unfolding available
reserve-Keeps s n h c = omega int_laws

release-Keeps : Keeps release_rule
release-Keeps s n h c = omega int_laws

commit-Keeps : Keeps commit_rule
commit-Keeps s n h c = omega int_laws

module _ (r : Rule) (keeps : Keeps r) (reference : Option ℕ) where
  round_keeps :
      (rows : List Stock)
      → All IsCovered rows
      → All
          (λ s.
            (n : ℤ) (inv : Inventory)
            → pos 1 ≤ℤ n
            → IsValid inv
            → let take = min_ℤ (r.offer s) n in
              IsValid (write (r.taken take s) (r.quantity take) r.reason reference "" inv))
          rows
  unfolding write
  round_keeps [] h = tt
  round_keeps (s ∷ rows) h = (
    λ n inv one valid. record {
      distinct = save-Distinct _ inv.stocks valid.distinct;
      covered = save-All IsCovered _ inv.stocks (keeps s n one h.0) valid.covered;
    },
    round_keeps rows h.1,
  )

  allocate-IsValid :
      (rows : List Stock) (n : ℤ) (inv : Inventory)
      → All IsCovered rows
      → IsValid inv
      → IsValid (allocate r reference rows n inv).1
  allocate-IsValid rows n inv h valid =
      allocate-induct r reference IsValid rows n inv (round_keeps rows h) valid

module _ (variant_id : ℕ) (inv : Inventory) (valid : IsValid inv) where
  pub reservable-IsCovered : All IsCovered (reservable variant_id inv)
  unfolding reservable alive
  reservable-IsCovered =
      order_by-All IsCovered _ _
        (filter_by-keeps-All IsCovered _ _ (filter_by-keeps-All IsCovered _ _ valid.covered))

  pub reserved_rows-IsCovered : All IsCovered (reserved_rows variant_id inv)
  unfolding reserved_rows alive
  reserved_rows-IsCovered =
      order_by-All IsCovered _ _
        (filter_by-keeps-All IsCovered _ _ (filter_by-keeps-All IsCovered _ _ valid.covered))

  module _ (quantity : ℤ) (reference : Option ℕ) where
    pub reserve_stock-IsValid : IsValid (reserve_stock variant_id quantity reference inv).1
    unfolding reserve_stock
    reserve_stock-IsValid = grind (
      arith,
      reserve_loop-eq reference (reservable variant_id inv)
          (record { remaining = quantity; snapshot_on_hand = pos 0; snapshot_reserved = pos 0 })
          inv,
      allocate-IsValid reserve_rule reserve-Keeps reference (reservable variant_id inv) quantity inv
          reservable-IsCovered valid,
    )

    pub release_reservation-IsValid :
        IsValid (release_reservation variant_id quantity reference inv).1
    unfolding release_reservation
    release_reservation-IsValid =
        rw (release_loop-eq reference (reserved_rows variant_id inv) quantity inv) (
          allocate-IsValid release_rule release-Keeps reference (reserved_rows variant_id inv)
            quantity inv reserved_rows-IsCovered valid)

    pub commit_sale-IsValid : IsValid (commit_sale variant_id quantity reference inv).1
    unfolding commit_sale
    commit_sale-IsValid = grind (
      arith,
      commit_loop-eq reference (reserved_rows variant_id inv) quantity inv,
      allocate-IsValid commit_rule commit-Keeps reference (reserved_rows variant_id inv) quantity
          inv reserved_rows-IsCovered valid,
    )
