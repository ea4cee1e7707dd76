-- ===== src/Orders/Release.antt =====
-- The stock's part of a transition in django_app/apps/orders/services.py: the loop that releases the
-- items of an order when it is cancelled.
use ecommerce.Prelude.{
  ℕ, ◌≡◌, refl, ap, ◌∙◌, inl, inr, none, some, List, [], ◌∷◌, arith, ◌==◌, Bool-cases, Option-cases,
}
use ecommerce.Prelude.Int.{ℤ, pos, ◌+ℤ◌, ◌-ℤ◌, ◌≤ℤ◌, min_ℤ, int_laws, eq_of_parts, parts_of_eq}
use ecommerce.Exec.{ok}
use ecommerce.Inventory.{Inventory, release_reservation}
use ecommerce.Inventory.Effects.{reserved_total}
use ecommerce.Inventory.Invariant.{IsValid, release_reservation-IsValid}
use ecommerce.Inventory.Sequences.{reserved_total_nonneg}
use ecommerce.Inventory.Commit.{release_reservation-Moves}
use ecommerce.Orders.{OrderItem}
use ecommerce.Orders.Services.{release_items}
use ecommerce.Orders.Demand.{
  demand, AreNonneg, Changes, portion, portion_self, portion_zero, portion_other, Changes-Moves,
  demand_nonneg, demand-cons_none, demand-cons_some, Changes-then, Changes-none, demand-nil,
}

module _ (order : ℕ) (it : OrderItem) (rest : List OrderItem) (inv : Inventory) where
  release_items-none :
      it.variant ≡ none → release_items order (it ∷ rest) inv ≡ release_items order rest inv
  unfolding release_items
  release_items-none e = rw (e, release_items)

  release_items-some :
      (u : ℕ)
      → it.variant ≡ some u
      → (release_reservation u it.quantity (some order) inv).0 ≡ ok tt
      → release_items order (it ∷ rest) inv
        ≡ release_items order rest (release_reservation u it.quantity (some order) inv).1
  unfolding release_items
  release_items-some u e done = ground arith

-- Two releases give back what one release of the sum does.
min_twice :
    (q d r : ℤ)
    → pos 0 ≤ℤ q
    → pos 0 ≤ℤ d
    → pos 0 ≤ℤ r
    → (pos 0 -ℤ min_ℤ q r) +ℤ (pos 0 -ℤ min_ℤ d (r +ℤ (pos 0 -ℤ min_ℤ q r)))
      ≡ pos 0 -ℤ min_ℤ (q +ℤ d) r
min_twice q d r hq hd hr = eq_of_parts _ _ (omega int_laws)

release_step :
    (u v : ℕ) (it : OrderItem) (rest : List OrderItem)
    → it.variant ≡ some u
    → pos 0 ≤ℤ it.quantity
    → pos 0 ≤ℤ demand v rest
    → (r r' s : ℤ) → r' ≡ r +ℤ portion u v (pos 0 -ℤ min_ℤ it.quantity s)
    → (v ≡ u → r ≡ s)
    → pos 0 ≤ℤ r
    → portion u v (pos 0 -ℤ min_ℤ it.quantity s) +ℤ (pos 0 -ℤ min_ℤ (demand v rest) r')
      ≡ pos 0 -ℤ min_ℤ (demand v (it ∷ rest)) r
release_step u v it rest e hq hd r r' s changed same hr =
    let q = it.quantity in
    let d = demand v rest in
    let split = demand-cons_some v u it rest e in
    elim (Bool-cases (v == u)) [
      | inl is_u ↦
          let p : v ≡ u = ground arith in
          let gone : portion u v (pos 0 -ℤ min_ℤ q s) ≡ pos 0 -ℤ min_ℤ q r =
            rw (p, portion_self, same p) in
          let all : portion u v q ≡ q = rw (p, portion_self) in
          rw (changed, gone, split, all) (min_twice q d r hq hd hr)
      | inr not_u ↦
          let gone = portion_other u v (pos 0 -ℤ min_ℤ q s) not_u in
          let none_of = portion_other u v q not_u in
          rw (changed, gone, split, none_of) (eq_of_parts _ _ (omega int_laws))
    ]

module _ (order : ℕ) where
  -- From a database in which reserved units are on hand, for quantities that are not negative: the
  -- loop never raises. Each variant's reserved units fall by what the items ask for, or to nothing if
  -- fewer are reserved, and the units on hand do not change.
  pub release_items-Changes :
      (items : List OrderItem) (inv : Inventory)
      → IsValid inv
      → AreNonneg items
      → let (r, inv') = release_items order items inv in
        (r ≡ ok tt)
        × IsValid inv'
        × Changes
            (λ v. pos 0 -ℤ min_ℤ (demand v items) (reserved_total v inv))
            (λ v. pos 0)
            inv
            inv'
  release_items-Changes [] inv valid nonneg =
      unfold release_items in
      (
        refl,
        valid,
        Changes-none _ _ inv
            (λ v.
              eq_of_parts _ _
                (omega (int_laws, parts_of_eq (demand-nil v), reserved_total_nonneg v inv valid)))
            (λ v. refl),
      )
  release_items-Changes (it ∷ rest) inv valid nonneg = elim (Option-cases it.variant) [
    | inl e ↦
        let same = λ (v : ℕ). demand-cons_none v it rest e in
        let (done, valid', changes) = release_items-Changes rest inv valid nonneg.1 in
        rw (release_items-none order it rest inv e) (
          done,
          valid',
          Changes-then (Changes-none (λ v. pos 0) (λ v. pos 0) inv (λ v. refl) (λ v. refl)) changes
              (λ v. eq_of_parts _ _ (omega (int_laws, parts_of_eq (same v))))
              (λ v. eq_of_parts _ _ (omega int_laws)),
        )
    | inr (u, e) ↦
        let q = it.quantity in
        let inv' = (release_reservation u q (some order) inv).1 in
        let (given, moves) = release_reservation-Moves u q (some order) inv valid nonneg.0 in
        let step = Changes-Moves moves in
        let (done, valid', changes) =
          release_items-Changes rest inv' (release_reservation-IsValid u inv valid q (some order))
            nonneg.1 in
        rw (release_items-some order it rest inv u e given) (
          done,
          valid',
          Changes-then step changes
              (λ v.
                release_step u v it rest e nonneg.0 (demand_nonneg v rest nonneg.1)
                  (reserved_total v inv) (reserved_total v inv') (reserved_total u inv)
                  (step.reserved v) (λ p. ap (λ t. reserved_total t inv) p)
                  (reserved_total_nonneg v inv valid))
              (λ v. ap (λ t. t +ℤ pos 0) (portion_zero u v) ∙ eq_of_parts _ _ (omega int_laws)),
        )
  ]
