-- ===== src/Inventory/Reserve.antt =====
-- `reserve_stock` of django_app/apps/inventory/services.py: when it succeeds, and what it does.
use ecommerce.Prelude.{
  ℕ, ◌≡◌, refl, sym, ap, ◌∙◌, inl, inr, true, ◌&&◌, Option, List, [], ◌∷◌, arith, ◌==◌,
  if◌then◌else◌, Bool-cases, &&-eq_true, All, filter_by,
}
use ecommerce.Prelude.Int.{
  ℤ, pos, ◌-ℤ◌, ◌≤ℤ◌, leb_ℤ, ltb_ℤ, max_ℤ, total, int_laws, eq_of_parts, parts_of_eq,
}
use ecommerce.Exec.{is_ok, Outcome, Outcome-intro}
use ecommerce.Core.Models.{Distinct, alive}
use ecommerce.Core.Models.Sorting.{total-order_by}
use ecommerce.Inventory.{
  Stock, stock_model, Inventory, available, reservable, in_active_warehouse, reserve_stock,
}
use ecommerce.Inventory.Allocation.{allocate, remaining-allocate}
use ecommerce.Inventory.Rules.{reserve_rule, available_nonneg, reserve_loop-eq, reservable-IsLocked}
use ecommerce.Inventory.Effects.{Moves, up, still, along, Acts, allocate-Moves}

-- The units of a variant that its living rows in active warehouses have to offer.
unfoldable pub reservable_units : ℕ → Inventory → ℤ
reservable_units variant_id inv = total available (
    filter_by (λ s. s.variant == variant_id && in_active_warehouse inv.warehouses s)
      (alive inv.stocks))

reserve-Acts : Acts reserve_rule up still
unfolding along
reserve-Acts = record {
  reserved = λ n s. refl;
  on_hand = λ n s. eq_of_parts _ _ (omega int_laws);
  variant = λ n s. refl;
  deleted_at = λ n s. refl;
}

All-available : (rows : List Stock) → All (λ s. pos 0 ≤ℤ available s) rows
All-available [] = tt
All-available (s ∷ rows) = (available_nonneg s, All-available rows)

module _ (variant_id : ℕ) (quantity : ℤ) (reference : Option ℕ) (inv : Inventory) where
  unfoldable pub outcome : ℤ × Inventory
  outcome = allocate reserve_rule reference (reservable variant_id inv) quantity inv

  -- What is short after the loop.
  short-eq :
      pos 0 ≤ℤ quantity → outcome.0 ≡ max_ℤ (quantity -ℤ reservable_units variant_id inv) (pos 0)
  unfolding outcome reservable_units
  short-eq h =
      remaining-allocate reserve_rule reference (reservable variant_id inv) quantity inv
        (All-available _) h
      ∙ ap (λ t. max_ℤ (quantity -ℤ t) (pos 0)) (unfold reservable in total-order_by available _ _)

  -- The service, in terms of the allocation.
  pub reserve_stock-eq :
      (is_ok (reserve_stock variant_id quantity reference inv).0
        ≡ (ltb_ℤ (pos 0) quantity && leb_ℤ outcome.0 (pos 0)))
      × ((reserve_stock variant_id quantity reference inv).1
          ≡ (if ltb_ℤ (pos 0) quantity && leb_ℤ outcome.0 (pos 0) then outcome.1 else inv))
  unfolding reserve_stock outcome
  reserve_stock-eq = ground (
    arith,
    reserve_loop-eq reference (reservable variant_id inv)
        (record { remaining = quantity; snapshot_on_hand = pos 0; snapshot_reserved = pos 0 }) inv,
  )

  -- A reservation succeeds exactly when the quantity is positive and the living rows of the variant
  -- in active warehouses have that many units available, in whatever order the rows are locked.
  pub is_ok-reserve_stock :
      is_ok (reserve_stock variant_id quantity reference inv).0
      ≡ (ltb_ℤ (pos 0) quantity && leb_ℤ quantity (reservable_units variant_id inv))
  is_ok-reserve_stock = elim (Bool-cases (ltb_ℤ (pos 0) quantity)) [
    | inl e ↦
        reserve_stock-eq.0 ∙ rw (e, short-eq (omega int_laws)) (unfold max_ℤ ◌-ℤ◌ in ground arith)
    | inr e ↦ reserve_stock-eq.0 ∙ rw e
  ]

  -- After a success the whole quantity is placed.
  pub none_left :
      is_ok (reserve_stock variant_id quantity reference inv).0 ≡ true
      → ((reserve_stock variant_id quantity reference inv).1 ≡ outcome.1) × (outcome.0 ≡ pos 0)
  none_left h =
      let c = sym reserve_stock-eq.0 ∙ h in
      let (positive, placed) = &&-eq_true (ltb_ℤ (pos 0) quantity) (leb_ℤ outcome.0 (pos 0)) c in
      (
        reserve_stock-eq.1 ∙ rw c,
        eq_of_parts _ _ (omega (int_laws, parts_of_eq (short-eq (omega int_laws)))),
      )

  -- Where no stock row's key is used twice: a successful reservation adds the quantity to the total of
  -- the reserved units of its variant, over all rows, and changes neither the total of the units on
  -- hand nor these totals of any other variant; a failed one changes nothing.
  pub reserve_stock-Moves :
      Distinct inv.stocks
      → Outcome inv
          (Moves variant_id quantity (pos 0) inv)
          (reserve_stock variant_id quantity reference inv)
  unfolding along outcome
  reserve_stock-Moves distinct =
      Outcome-intro inv _ (reserve_stock variant_id quantity reference inv)
        (λ h. let (e, z) = none_left h in rw e (moved z))
        (λ h. reserve_stock-eq.1 ∙ rw (sym reserve_stock-eq.0 ∙ h))
    where
      quantity_moved : outcome.0 ≡ pos 0 → quantity -ℤ outcome.0 ≡ quantity
      quantity_moved z = eq_of_parts _ _ (omega (int_laws, parts_of_eq z))

      moved : outcome.0 ≡ pos 0 → Moves variant_id quantity (pos 0) inv outcome.1
      moved z =
          rw (quantity_moved z, along) at
            (allocate-Moves reserve_rule up still reserve-Acts reference variant_id
              (reservable variant_id inv) quantity inv distinct
              (reservable-IsLocked variant_id inv distinct))
