-- ===== src/Orders/Fulfilment.antt =====
-- The stock's part of a transition in django_app/apps/orders/services.py: the loop that commits the
-- items of an order when it is paid.
use ecommerce.Prelude.{
  ℕ, ◌≡◌, refl, ◌∙◌, inl, inr, true, none, some, List, [], ◌∷◌, arith, Option-cases,
}
use ecommerce.Prelude.Int.{pos, ◌+ℤ◌, ◌-ℤ◌, ◌≤ℤ◌, int_laws, eq_of_parts, parts_of_eq, leb_intro}
use ecommerce.Exec.{ok, is_ok, Outcome-ok}
use ecommerce.Inventory.{Inventory, commit_sale}
use ecommerce.Inventory.Effects.{reserved_total}
use ecommerce.Inventory.Invariant.{IsValid, commit_sale-IsValid}
use ecommerce.Inventory.Commit.{is_ok-commit_sale, commit_sale-Moves}
use ecommerce.Orders.{OrderItem}
use ecommerce.Orders.Services.{commit_items}
use ecommerce.Orders.Demand.{
  demand, AreNonneg, Changes, portion, portion_self, portion_neg, Changes-Moves, demand_nonneg,
  demand-cons_none, demand-cons_some, Changes-then, Changes-none, demand-nil,
}

module _ (order : ℕ) (it : OrderItem) (rest : List OrderItem) (inv : Inventory) where
  commit_items-none :
      it.variant ≡ none → commit_items order (it ∷ rest) inv ≡ commit_items order rest inv
  unfolding commit_items
  commit_items-none e = rw (e, commit_items)

  commit_items-some :
      (u : ℕ)
      → it.variant ≡ some u
      → is_ok (commit_sale u it.quantity (some order) inv).0 ≡ true
      → commit_items order (it ∷ rest) inv
        ≡ commit_items order rest (commit_sale u it.quantity (some order) inv).1
  unfolding commit_items
  commit_items-some u e done = ground arith

by_parts :
    (u v : ℕ) (it : OrderItem) (rest : List OrderItem)
    → it.variant ≡ some u
    → portion u v (pos 0 -ℤ it.quantity) +ℤ (pos 0 -ℤ demand v rest) ≡ pos 0 -ℤ demand v (it ∷ rest)
by_parts u v it rest e = eq_of_parts _ _ (
    omega (
      int_laws,
      parts_of_eq (demand-cons_some v u it rest e),
      parts_of_eq (portion_neg u v it.quantity),
    ))

module _ (order : ℕ) where
  -- From a database in which reserved units are on hand, for quantities that are not negative: when
  -- each variant has as many units reserved as the items ask for, all sales are committed. Each
  -- variant's reserved units and units on hand fall by what the items ask for.
  pub commit_items-Changes :
      (items : List OrderItem) (inv : Inventory)
      → IsValid inv
      → AreNonneg items
      → ((v : ℕ) → demand v items ≤ℤ reserved_total v inv)
      → let (r, inv') = commit_items order items inv in
        (r ≡ ok tt)
        × IsValid inv'
        × Changes (λ v. pos 0 -ℤ demand v items) (λ v. pos 0 -ℤ demand v items) inv inv'
  commit_items-Changes [] inv valid nonneg enough =
      let zero_demand = λ (v : ℕ).
        eq_of_parts (pos 0 -ℤ demand v []) (pos 0) (omega (int_laws, parts_of_eq (demand-nil v))) in
      unfold commit_items in (refl, valid, Changes-none _ _ inv zero_demand zero_demand)
  commit_items-Changes (it ∷ rest) inv valid nonneg enough = elim (Option-cases it.variant) [
    | inl e ↦
        let same = λ (v : ℕ). demand-cons_none v it rest e in
        let (done, valid', changes) =
          commit_items-Changes rest inv valid nonneg.1
            (λ v. omega (int_laws, parts_of_eq (same v), enough v)) in
        rw (commit_items-none order it rest inv e) (
          done,
          valid',
          Changes-then (Changes-none (λ v. pos 0) (λ v. pos 0) inv (λ v. refl) (λ v. refl)) changes
              (λ v. eq_of_parts _ _ (omega (int_laws, parts_of_eq (same v))))
              (λ v. eq_of_parts _ _ (omega (int_laws, parts_of_eq (same v)))),
        )
    | inr (u, e) ↦
        let q = it.quantity in
        let split = λ (v : ℕ). demand-cons_some v u it rest e in
        let more = λ (v : ℕ). demand_nonneg v rest nonneg.1 in
        let sold : is_ok (commit_sale u q (some order) inv).0 ≡ true =
          is_ok-commit_sale u q (some order) inv valid nonneg.0
          ∙ leb_intro q (reserved_total u inv) (
              omega (
                int_laws,
                parts_of_eq (split u),
                parts_of_eq (portion_self u q),
                more u,
                enough u,
              )) in
        let inv' = (commit_sale u q (some order) inv).1 in
        let step = Changes-Moves (
          Outcome-ok inv _ (commit_sale u q (some order) inv)
            (commit_sale-Moves u q (some order) inv valid nonneg.0) sold) in
        let (done, valid', changes) =
          commit_items-Changes rest inv' (commit_sale-IsValid u inv valid q (some order)) nonneg.1
            (λ v. omega (
              int_laws,
              parts_of_eq (split v),
              parts_of_eq (step.reserved v),
              parts_of_eq (portion_neg u v q),
              enough v,
            )) in
        rw (commit_items-some order it rest inv u e sold) (
          done,
          valid',
          Changes-then step changes (λ v. by_parts u v it rest e) (λ v. by_parts u v it rest e),
        )
  ]
