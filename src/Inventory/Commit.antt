-- ===== src/Inventory/Commit.antt =====
-- `commit_sale` and `release_reservation` of django_app/apps/inventory/services.py: when they
-- succeed, and what they do to a database in which reserved units are on hand.
use ecommerce.Prelude.{
  ℕ, ◌≡◌, refl, sym, ap, ◌∙◌, true, ◌&&◌, Option, List, [], ◌∷◌, arith, ◌==◌, if◌then◌else◌, All,
  All-map, filter_by,
}
use ecommerce.Prelude.Int.{
  ℤ, pos, ◌-ℤ◌, ◌≤ℤ◌, leb_ℤ, ltb_ℤ, min_ℤ, max_ℤ, total, int_laws, eq_of_parts, parts_of_eq,
}
use ecommerce.Exec.{ok, is_ok, Outcome, Outcome-intro}
use ecommerce.Core.Models.{alive}
use ecommerce.Core.Models.Sorting.{total-order_by}
use ecommerce.Inventory.{
  Stock, stock_model, Inventory, reserved_rows, release_reservation, commit_sale,
}
use ecommerce.Inventory.Allocation.{allocate, remaining-allocate}
use ecommerce.Inventory.Rules.{
  release_rule, commit_rule, release_loop-eq, commit_loop-eq, reserved_rows-IsLocked,
}
use ecommerce.Inventory.Effects.{
  held, reserved_total, Moves, down, still, along, Acts, allocate-Moves,
}
use ecommerce.Inventory.Invariant.{IsCovered, IsValid, reserved_rows-IsCovered}

release-Acts : Acts release_rule down still
unfolding along
release-Acts = record {
  reserved = λ n s. eq_of_parts _ _ (omega int_laws);
  on_hand = λ n s. eq_of_parts _ _ (omega int_laws);
  variant = λ n s. refl;
  deleted_at = λ n s. refl;
}

commit-Acts : Acts commit_rule down down
unfolding along
commit-Acts = record {
  reserved = λ n s. eq_of_parts _ _ (omega int_laws);
  on_hand = λ n s. eq_of_parts _ _ (omega int_laws);
  variant = λ n s. refl;
  deleted_at = λ n s. refl;
}

module _ (offer : Stock → ℤ) (offers_all : (s : Stock) → IsCovered s → offer s ≡ s.reserved)
    (variant_id : ℕ) where
  -- Of covered rows, those that hold nothing add nothing.
  total-held :
      (t : List Stock)
      → All IsCovered t
      → total offer (filter_by (λ s. s.variant == variant_id && ltb_ℤ (pos 0) s.reserved) (alive t))
        ≡ total (held variant_id) t
  unfolding total alive
  total-held [] h = refl
  total-held (s ∷ t) h = grind (int_laws, total-held t h.1, offers_all s h.0)

  offered-eq :
      (inv : Inventory)
      → IsValid inv
      → total offer (reserved_rows variant_id inv) ≡ reserved_total variant_id inv
  unfolding reserved_rows reserved_total
  offered-eq inv valid = total-order_by offer _ _ ∙ total-held inv.stocks valid.covered

  offers-nonneg : (rows : List Stock) → All IsCovered rows → All (λ s. pos 0 ≤ℤ offer s) rows
  offers-nonneg rows h =
      All-map IsCovered _ (λ s c. omega (int_laws, parts_of_eq (offers_all s c))) rows h

commit_offers_all : (s : Stock) → IsCovered s → min_ℤ s.reserved s.on_hand ≡ s.reserved
commit_offers_all s c = eq_of_parts _ _ (omega int_laws)

module _ (variant_id : ℕ) (quantity : ℤ) (reference : Option ℕ) (inv : Inventory)
    (valid : IsValid inv) (nonneg : pos 0 ≤ℤ quantity) where
  committed : ℤ × Inventory
  committed = allocate commit_rule reference (reserved_rows variant_id inv) quantity inv

  -- What is short after the loop.
  short-eq : committed.0 ≡ max_ℤ (quantity -ℤ reserved_total variant_id inv) (pos 0)
  unfolding committed
  short-eq =
      remaining-allocate commit_rule reference (reserved_rows variant_id inv) quantity inv
        (offers-nonneg commit_rule.offer commit_offers_all variant_id _
          (reserved_rows-IsCovered variant_id inv valid))
        nonneg
      ∙ ap (λ t. max_ℤ (quantity -ℤ t) (pos 0))
          (offered-eq commit_rule.offer commit_offers_all variant_id inv valid)

  commit_sale-eq :
      (is_ok (commit_sale variant_id quantity reference inv).0 ≡ leb_ℤ committed.0 (pos 0))
      × ((commit_sale variant_id quantity reference inv).1
          ≡ (if leb_ℤ committed.0 (pos 0) then committed.1 else inv))
  unfolding commit_sale committed
  commit_sale-eq =
      ground (arith, commit_loop-eq reference (reserved_rows variant_id inv) quantity inv)

  -- For a quantity that is not negative and a database in which reserved units are on hand: a sale is
  -- committed exactly when that many units of the variant are reserved.
  pub is_ok-commit_sale :
      is_ok (commit_sale variant_id quantity reference inv).0
      ≡ leb_ℤ quantity (reserved_total variant_id inv)
  is_ok-commit_sale = commit_sale-eq.0 ∙ rw short-eq (unfold max_ℤ ◌-ℤ◌ in ground arith)

  -- For a quantity that is not negative and a database in which reserved units are on hand: a sale
  -- that is committed takes the quantity off the reserved units and off the units on hand of its
  -- variant, and changes these counts of no other variant; one that fails changes nothing.
  pub commit_sale-Moves :
      Outcome inv
        (Moves variant_id (pos 0 -ℤ quantity) (pos 0 -ℤ quantity) inv)
        (commit_sale variant_id quantity reference inv)
  unfolding along committed
  commit_sale-Moves =
      Outcome-intro inv _ (commit_sale variant_id quantity reference inv)
        (λ h.
          let c : leb_ℤ committed.0 (pos 0) ≡ true = sym commit_sale-eq.0 ∙ h in
          let e : (commit_sale variant_id quantity reference inv).1 ≡ committed.1 =
            commit_sale-eq.1 ∙ rw c in
          rw e (moved c))
        (λ h. commit_sale-eq.1 ∙ rw (sym commit_sale-eq.0 ∙ h))
    where
      quantity_moved : leb_ℤ committed.0 (pos 0) ≡ true → quantity -ℤ committed.0 ≡ quantity
      quantity_moved c = eq_of_parts _ _ (omega (int_laws, parts_of_eq short-eq))

      moved :
          leb_ℤ committed.0 (pos 0) ≡ true
          → Moves variant_id (pos 0 -ℤ quantity) (pos 0 -ℤ quantity) inv committed.1
      moved c =
          rw (quantity_moved c, along) at
            (allocate-Moves commit_rule down down commit-Acts reference variant_id
              (reserved_rows variant_id inv) quantity inv valid.distinct
              (reserved_rows-IsLocked variant_id inv valid.distinct))

  released : ℤ × Inventory
  released = allocate release_rule reference (reserved_rows variant_id inv) quantity inv

  left-eq : released.0 ≡ max_ℤ (quantity -ℤ reserved_total variant_id inv) (pos 0)
  unfolding released
  left-eq =
      remaining-allocate release_rule reference (reserved_rows variant_id inv) quantity inv
        (offers-nonneg release_rule.offer (λ s c. refl) variant_id _
          (reserved_rows-IsCovered variant_id inv valid))
        nonneg
      ∙ ap (λ t. max_ℤ (quantity -ℤ t) (pos 0))
          (offered-eq release_rule.offer (λ s c. refl) variant_id inv valid)

  -- For a quantity that is not negative and a database in which reserved units are on hand: a release
  -- never raises, gives back the quantity or all that the variant has reserved, whichever is less, and
  -- changes neither the units on hand nor these counts of any other variant.
  pub release_reservation-Moves :
      let (r, inv') = release_reservation variant_id quantity reference inv in
      (r ≡ ok tt)
      × Moves variant_id (pos 0 -ℤ min_ℤ quantity (reserved_total variant_id inv)) (pos 0) inv inv'
  unfolding release_reservation along released
  release_reservation-Moves = (
    refl,
    rw (release_loop-eq reference (reserved_rows variant_id inv) quantity inv, ← given_back)
        (allocate-Moves release_rule down still release-Acts reference variant_id
          (reserved_rows variant_id inv) quantity inv valid.distinct
          (reserved_rows-IsLocked variant_id inv valid.distinct)),
  )
    where
      given_back : quantity -ℤ released.0 ≡ min_ℤ quantity (reserved_total variant_id inv)
      given_back = eq_of_parts _ _ (omega (int_laws, parts_of_eq left-eq))
