-- ===== src/Inventory/Audit.antt =====
-- `reserve_stock` of django_app/apps/inventory/services.py with the movements it leaves.
use ecommerce.Prelude.{ℕ, ◌≡◌, refl, sym, ap, ◌∙◌, true, Option, List, [], ◌∷◌, ◌++◌, All}
use ecommerce.Prelude.Int.{ℤ, pos, ◌-ℤ◌, min_ℤ, total, int_laws, eq_of_parts, parts_of_eq}
use ecommerce.Exec.{is_ok, Outcome, Outcome-intro, Outcome-ok, Outcome-failed}
use ecommerce.Core.Models.{Distinct}
use ecommerce.Inventory.{
  Stock, StockMovement, stock_model, Inventory, Reason, reservation, write, reservable,
  reserve_stock,
}
use ecommerce.Inventory.Allocation.{Rule, allocate, allocate-cons}
use ecommerce.Inventory.Rules.{reserve_rule}
use ecommerce.Inventory.Effects.{Moves}
use ecommerce.Inventory.Reserve.{outcome, none_left, reserve_stock-Moves}

abbrev quantity_of : StockMovement → ℤ
quantity_of m = m.quantity

-- No warehouse changes. The movements of before stay, and those that are added have the reason and the
-- reference, and their quantities come to the given number.
pub record Records (reason : Reason) (reference : Option ℕ) (sum : ℤ) (inv inv' : Inventory)
    : Type 0 where
  pub added : List StockMovement
  pub same_warehouses : inv'.warehouses ≡ inv.warehouses
  pub appended : inv'.movements ≡ inv.movements ++ added
  pub marked : All (λ m. (m.reason ≡ reason) × (m.reference ≡ reference)) added
  pub summed : total quantity_of added ≡ sum

append_nil : {A : Type 0} (xs : List A) → xs ++ [] ≡ xs
append_nil [] = refl
append_nil (x ∷ xs) = ap (λ t. x ∷ t) (append_nil xs)

append_one : {A : Type 0} (xs ys : List A) (a : A) → (xs ++ a ∷ []) ++ ys ≡ xs ++ a ∷ ys
append_one [] ys a = refl
append_one (x ∷ xs) ys a = ap (λ t. x ∷ t) (append_one xs ys a)

module _ (r : Rule) (reference : Option ℕ)
    (quantity_sub : (a b : ℤ) → r.quantity (a -ℤ b) ≡ r.quantity a -ℤ r.quantity b) where
  -- Of an allocation of `n` that leaves `p.0`.
  abbrev Recorded : ℤ → Inventory → ℤ × Inventory → Type 0
  Recorded n inv p = Records r.reason reference (r.quantity n -ℤ r.quantity p.0) inv p.1

  nothing : (n : ℤ) (inv : Inventory) → Recorded n inv (n, inv)
  unfolding total
  nothing n inv = record {
    added = [];
    same_warehouses = refl;
    appended = sym (append_nil inv.movements);
    marked = tt;
    summed = eq_of_parts _ _ (omega int_laws);
  }

  one_more :
      (s : Stock) (take n : ℤ) (inv : Inventory) (p : ℤ × Inventory)
      → Recorded (n -ℤ take) (write s (r.quantity take) r.reason reference "" inv) p
      → Recorded n inv p
  unfolding write total
  one_more s take n inv p h = record {
    added =
        record {
          stock = s.id;
          quantity = r.quantity take;
          reason = r.reason;
          reference = reference;
          note = "";
        }
        ∷ h.added;
    same_warehouses = h.same_warehouses;
    appended = h.appended ∙ append_one inv.movements h.added _;
    marked = ((refl, refl), h.marked);
    summed =
        eq_of_parts _ _ (omega (int_laws, parts_of_eq h.summed, parts_of_eq (quantity_sub n take)));
  }

  allocate-Records :
      (rows : List Stock) (n : ℤ) (inv : Inventory)
      → Recorded n inv (allocate r reference rows n inv)
  allocate-Records [] n inv = unfold allocate in nothing n inv
  allocate-Records (s ∷ rows) n inv =
      let take = min_ℤ (r.offer s) n in
      allocate-cons r reference (Recorded n inv) s rows n inv (λ a. nothing n inv)
        (λ a b c. allocate-Records rows n inv)
        (λ a. one_more (r.taken take s) take n inv _ (
          allocate-Records rows (n -ℤ take)
            (write (r.taken take s) (r.quantity take) r.reason reference "" inv)))

reserved_sub :
    (a b : ℤ) → reserve_rule.quantity (a -ℤ b) ≡ reserve_rule.quantity a -ℤ reserve_rule.quantity b
reserved_sub a b = eq_of_parts _ _ (omega int_laws)

module _ (variant_id : ℕ) (quantity : ℤ) (reference : Option ℕ) (inv : Inventory) where
  in_full :
      (p : ℤ × Inventory)
      → p.0 ≡ pos 0
      → Recorded reserve_rule reference reserved_sub quantity inv p
      → Records reservation reference (pos 0 -ℤ quantity) inv p.1
  in_full p z h = record {
    added = h.added;
    same_warehouses = h.same_warehouses;
    appended = h.appended;
    marked = h.marked;
    summed = eq_of_parts _ _ (omega (int_laws, parts_of_eq h.summed, parts_of_eq z));
  }

  recorded :
      is_ok (reserve_stock variant_id quantity reference inv).0 ≡ true
      → Records reservation reference
          (pos 0 -ℤ quantity)
          inv
          (reserve_stock variant_id quantity reference inv).1
  unfolding outcome
  recorded h =
      let (e, z) = none_left variant_id quantity reference inv h in
      rw e (
        in_full _ z (
          allocate-Records reserve_rule reference reserved_sub (reservable variant_id inv) quantity
            inv))

  -- Where no stock row's key is used twice: a successful reservation adds the quantity to the total of
  -- the reserved units of its variant, over all rows, and changes neither the total of the units on
  -- hand nor these totals of any other variant; it changes no warehouse, keeps the earlier movements
  -- in their place, and appends movements with the reason `reservation` and the given reference,
  -- whose quantities add up to minus the quantity. A failed one changes nothing.
  pub reserve_stock-Records :
      Distinct inv.stocks
      → Outcome inv
          (λ inv'.
            Moves variant_id quantity (pos 0) inv inv'
            × Records reservation reference (pos 0 -ℤ quantity) inv inv')
          (reserve_stock variant_id quantity reference inv)
  reserve_stock-Records distinct =
      let call = reserve_stock variant_id quantity reference inv in
      let moves = reserve_stock-Moves variant_id quantity reference inv distinct in
      Outcome-intro inv _ call
        (λ h. (Outcome-ok inv (Moves variant_id quantity (pos 0) inv) call moves h, recorded h))
        (λ h. Outcome-failed inv (Moves variant_id quantity (pos 0) inv) call moves h)
