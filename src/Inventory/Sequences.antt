-- ===== src/Inventory/Sequences.antt =====
-- Calls of django_app/apps/inventory/services.py one after another: what a reservation is good for
-- later, and the calls that serve orders in any sequence.
use ecommerce.Prelude.{ℕ, ◌≡◌, sym, ◌∙◌, true, Option, List, [], ◌∷◌, arith, &&-eq_true, All-map}
use ecommerce.Prelude.Int.{
  ℤ, pos, ◌-ℤ◌, ◌≤ℤ◌, leb_ℤ, ltb_ℤ, total_nonneg, int_laws, eq_of_parts, parts_of_eq, leb_intro,
}
use ecommerce.Exec.{is_ok, Outcome-ok}
use ecommerce.Inventory.{
  stock_model, warehouse_model, Inventory, reserve_stock, release_reservation, commit_sale,
}
use ecommerce.Inventory.Effects.{held, reserved_total, Moves, Moves-trans, Moves-eq}
use ecommerce.Inventory.Reserve.{reservable_units, is_ok-reserve_stock, reserve_stock-Moves}
use ecommerce.Inventory.Invariant.{
  IsCovered, IsValid, reserve_stock-IsValid, release_reservation-IsValid, commit_sale-IsValid,
}
use ecommerce.Inventory.Commit.{is_ok-commit_sale, commit_sale-Moves, release_reservation-Moves}

pub reserved_total_nonneg : (v : ℕ) (inv : Inventory) → IsValid inv → pos 0 ≤ℤ reserved_total v inv
unfolding reserved_total
reserved_total_nonneg v inv valid =
    total_nonneg (held v) inv.stocks
      (All-map IsCovered (λ s. pos 0 ≤ℤ held v s) (λ s c. ground arith) inv.stocks valid.covered)

module _ (v : ℕ) (q : ℤ) (reference : Option ℕ) (inv : Inventory) (valid : IsValid inv)
    (reserved : is_ok (reserve_stock v q reference inv).0 ≡ true) where
  after : Inventory
  after = (reserve_stock v q reference inv).1

  after-IsValid : IsValid after
  unfolding after
  after-IsValid = reserve_stock-IsValid v inv valid q reference

  after-Moves : Moves v q (pos 0) inv after
  unfolding after
  after-Moves =
      Outcome-ok inv (Moves v q (pos 0) inv) (reserve_stock v q reference inv)
        (reserve_stock-Moves v q reference inv valid.distinct) reserved

  positive : ltb_ℤ (pos 0) q ≡ true
  positive =
      (&&-eq_true (ltb_ℤ (pos 0) q) (leb_ℤ q (reservable_units v inv))
        (sym (is_ok-reserve_stock v q reference inv) ∙ reserved)).0

  q_nonneg : pos 0 ≤ℤ q
  q_nonneg = omega (int_laws, positive)

  enough : q ≤ℤ reserved_total v after
  enough =
      omega (int_laws, parts_of_eq after-Moves.reserved_here, reserved_total_nonneg v inv valid)

  -- From a database in which reserved units are on hand: once a reservation has succeeded, the sale
  -- of the same units is committed without fail. The units on hand have fallen by the quantity, the
  -- reserved units are what they were before the reservation, and no other variant has changed.
  pub commit_sale-reserve_stock :
      let (r, inv') = commit_sale v q reference (reserve_stock v q reference inv).1 in
      (is_ok r ≡ true) × Moves v (pos 0) (pos 0 -ℤ q) inv inv'
  unfolding after
  commit_sale-reserve_stock =
      let committed =
        is_ok-commit_sale v q reference after after-IsValid q_nonneg
        ∙ leb_intro q (reserved_total v after) enough in
      (
        committed,
        Moves-eq (eq_of_parts _ _ (omega int_laws)) (eq_of_parts _ _ (omega int_laws)) (
            Moves-trans after-Moves (
              Outcome-ok after (Moves v (pos 0 -ℤ q) (pos 0 -ℤ q) after)
                (commit_sale v q reference after)
                (commit_sale-Moves v q reference after after-IsValid q_nonneg) committed)),
      )

  -- From a database in which reserved units are on hand: releasing what was reserved restores the
  -- totals of the reserved units and of the units on hand, over all warehouses, of every variant.
  pub release_reservation-reserve_stock :
      Moves v
        (pos 0)
        (pos 0)
        inv
        (release_reservation v q reference (reserve_stock v q reference inv).1).1
  unfolding after
  release_reservation-reserve_stock =
      Moves-eq (eq_of_parts _ _ (omega (int_laws, enough))) (eq_of_parts _ _ (omega int_laws)) (
        Moves-trans after-Moves
          (release_reservation-Moves v q reference after after-IsValid q_nonneg).1)

-- A call that an order makes on the inventory.
pub data Call : Type 0 where
  reserve release commit : ℕ → ℤ → Option ℕ → Call

-- Each call is a transaction of its own, and one that raises leaves the database as it was.
abbrev pub perform : Inventory → Call → Inventory
perform inv (reserve v q reference) = (reserve_stock v q reference inv).1
perform inv (release v q reference) = (release_reservation v q reference inv).1
perform inv (commit v q reference) = (commit_sale v q reference inv).1

abbrev pub perform_all : Inventory → List Call → Inventory
perform_all inv [] = inv
perform_all inv (c ∷ calls) = perform_all (perform inv c) calls

perform-IsValid : (inv : Inventory) (c : Call) → IsValid inv → IsValid (perform inv c)
perform-IsValid inv (reserve v q reference) valid = reserve_stock-IsValid v inv valid q reference
perform-IsValid inv (release v q reference) valid =
    release_reservation-IsValid v inv valid q reference
perform-IsValid inv (commit v q reference) valid = commit_sale-IsValid v inv valid q reference

-- From a database in which every reserved unit is on hand, any sequence of reservations, releases
-- and sales, with any quantities and whether they fail or not, keeps it so: stock is not oversold.
pub perform_all-IsValid :
    (inv : Inventory) (calls : List Call) → IsValid inv → IsValid (perform_all inv calls)
perform_all-IsValid inv [] valid = valid
perform_all-IsValid inv (c ∷ calls) valid =
    perform_all-IsValid (perform inv c) calls (perform-IsValid inv c valid)
