-- ===== src/Inventory/Rules.antt =====
-- The three loops of django_app/apps/inventory/services.py as instances of one allocation, the
-- rows that they lock, and the quantities that their effects are stated in.
use ecommerce.Prelude.{
  ℕ, ◌≡◌, refl, ◌∙◌, Bool, true, ◌&&◌, Option, List, [], ◌∷◌, arith, ◌==◌, All, All-map, filter_by,
  filter_by-All, filter_by-filter_by,
}
use ecommerce.Prelude.Int.{ℤ, pos, ◌+ℤ◌, ◌-ℤ◌, ◌≤ℤ◌, ltb_ℤ, min_ℤ, int_laws, min_parts}
use ecommerce.Core.Models.{Distinct, IsStored, alive, is_alive}
use ecommerce.Core.Models.Rows.{filter-Distinct, filter-IsStored}
use ecommerce.Core.Models.Sorting.{order_by, order_by-All, order_by-Distinct}
use ecommerce.Inventory.{
  Stock, stock_model, Inventory, Reserving, reservation, reservation_release, sale, available,
  write, in_active_warehouse, reservable, reserved_rows, reserve_row, reserve_loop, release_loop,
  commit_loop,
}
use ecommerce.Inventory.Allocation.{Rule, allocate}

abbrev pub reserve_rule : Rule
reserve_rule = record {
  offer = available;
  taken = λ n s. record s { reserved = s.reserved +ℤ n };
  quantity = λ n. pos 0 -ℤ n;
  reason = reservation;
  same_id = λ n s. refl;
}

abbrev pub release_rule : Rule
release_rule = record {
  offer = λ s. s.reserved;
  taken = λ n s. record s { reserved = s.reserved -ℤ n };
  quantity = λ n. n;
  reason = reservation_release;
  same_id = λ n s. refl;
}

abbrev pub commit_rule : Rule
commit_rule = record {
  offer = λ s. min_ℤ s.reserved s.on_hand;
  taken = λ n s. record s { reserved = s.reserved -ℤ n; on_hand = s.on_hand -ℤ n };
  quantity = λ n. pos 0 -ℤ n;
  reason = sale;
  same_id = λ n s. refl;
}

pub available_nonneg : (s : Stock) → pos 0 ≤ℤ available s
unfolding available
available_nonneg s = omega int_laws

module _ (reference : Option ℕ) where
  pub release_loop-eq :
      (rows : List Stock) (n : ℤ) (inv : Inventory)
      → release_loop reference rows n inv ≡ allocate release_rule reference rows n inv
  unfolding release_loop allocate
  release_loop-eq [] n inv = refl
  release_loop-eq (s ∷ rows) n inv = ground (
    arith,
    release_loop-eq rows n inv,
    release_loop-eq rows (n -ℤ min_ℤ s.reserved n) (
        write (record s { reserved = s.reserved -ℤ min_ℤ s.reserved n }) (min_ℤ s.reserved n)
          reservation_release reference "" inv),
  )

  pub commit_loop-eq :
      (rows : List Stock) (n : ℤ) (inv : Inventory)
      → commit_loop reference rows n inv ≡ allocate commit_rule reference rows n inv
  unfolding commit_loop allocate
  commit_loop-eq [] n inv = refl
  commit_loop-eq (s ∷ rows) n inv =
      let take = min_ℤ (min_ℤ s.reserved s.on_hand) n in
      ground (
        arith,
        commit_loop-eq rows n inv,
        commit_loop-eq rows (n -ℤ take) (
            write (record s { reserved = s.reserved -ℤ take; on_hand = s.on_hand -ℤ take })
              (pos 0 -ℤ take) sale reference "" inv),
      )

  allocate_done :
      (r : Rule) (rows : List Stock) (n : ℤ) (inv : Inventory)
      → n ≤ℤ pos 0
      → allocate r reference rows n inv ≡ (n, inv)
  unfolding allocate
  allocate_done r [] n inv h = refl
  allocate_done r (s ∷ rows) n inv h = ground arith

  reserve_row-step :
      (rows : List Stock) (s : Stock) (acc : Reserving) (inv : Inventory)
      → let (acc', inv') = reserve_row reference s acc inv in
        allocate reserve_rule reference rows acc'.remaining inv'
        ≡ allocate reserve_rule reference (s ∷ rows) acc.remaining inv
  unfolding reserve_row allocate
  reserve_row-step rows s acc inv =
      let take = min_ℤ (available s) acc.remaining in
      ground (
        arith,
        allocate_done reserve_rule rows acc.remaining inv,
        available_nonneg s,
        min_parts (available s) acc.remaining,
      )

  -- The loop that also takes the snapshot allocates by the same rule.
  pub reserve_loop-eq :
      (rows : List Stock) (acc : Reserving) (inv : Inventory)
      → let (acc', inv') = reserve_loop reference rows acc inv in
        ◌≡◌ {A = ℤ × Inventory}
          (acc'.remaining, inv')
          (allocate reserve_rule reference rows acc.remaining inv)
  unfolding reserve_loop
  reserve_loop-eq [] acc inv = unfold allocate in refl
  reserve_loop-eq (s ∷ rows) acc inv =
      let (acc', inv') = reserve_row reference s acc inv in
      reserve_loop-eq rows acc' inv' ∙ reserve_row-step rows s acc inv

-- What a loop may rely on about the rows that it has read.
pub record IsLocked (variant_id : ℕ) (inv : Inventory) (rows : List Stock) : Type 0 where
  pub distinct : Distinct rows
  pub stored : All (IsStored inv.stocks) rows
  pub matching : All (λ s. (is_alive s && s.variant == variant_id) ≡ true) rows

module _ (variant_id : ℕ) (inv : Inventory) (le : Stock → Stock → Bool) (q : Stock → Bool) where
  selected-IsLocked :
      Distinct inv.stocks
      → IsLocked variant_id inv
          (order_by le (filter_by (λ s. s.variant == variant_id && q s) (alive inv.stocks)))
  unfolding alive
  selected-IsLocked d =
      let p = λ (s : Stock). is_alive s && (s.variant == variant_id && q s) in
      rw filter_by-filter_by (record {
        distinct = order_by-Distinct le _ (filter-Distinct p inv.stocks d);
        stored = order_by-All (IsStored inv.stocks) le _ (filter-IsStored p inv.stocks d);
        matching =
            order_by-All _ le _
              (All-map (λ s. p s ≡ true) _ (λ s h. ground arith) _ (filter_by-All p inv.stocks));
      })

pub reservable-IsLocked :
    (variant_id : ℕ) (inv : Inventory)
    → Distinct inv.stocks
    → IsLocked variant_id inv (reservable variant_id inv)
unfolding reservable
reservable-IsLocked variant_id inv d =
    selected-IsLocked variant_id inv _ (in_active_warehouse inv.warehouses) d

pub reserved_rows-IsLocked :
    (variant_id : ℕ) (inv : Inventory)
    → Distinct inv.stocks
    → IsLocked variant_id inv (reserved_rows variant_id inv)
unfolding reserved_rows
reserved_rows-IsLocked variant_id inv d =
    selected-IsLocked variant_id inv _ (λ s. ltb_ℤ (pos 0) s.reserved) d
