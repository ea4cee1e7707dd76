-- ===== src/Orders/Demand.antt =====
-- What the items of an order ask for, and changes of the stock seen from every variant, for the loops
-- of django_app/apps/orders/services.py.
use ecommerce.Prelude.{
  ℕ, ◌≡◌, ◌≢◌, refl, ◌∙◌, inl, inr, Bool, false, Option, none, some, List, [], ◌∷◌, arith, ◌==◌,
  if◌then◌else◌, Bool-cases, All,
}
use ecommerce.Prelude.Int.{
  ℤ, pos, ◌+ℤ◌, ◌-ℤ◌, ◌≤ℤ◌, total, total_nonneg, int_laws, eq_of_parts, parts_of_eq,
}
use ecommerce.Inventory.{Inventory}
use ecommerce.Inventory.Effects.{reserved_total, on_hand_total, Moves}
use ecommerce.Orders.{OrderItem}

-- The units of a variant that the items of an order ask for.
abbrev pub is_variant : ℕ → Option ℕ → Bool
is_variant v none = false
is_variant v (some u) = v == u

abbrev pub asks : ℕ → OrderItem → ℤ
asks v it = if is_variant v it.variant then it.quantity else pos 0

unfoldable pub demand : ℕ → List OrderItem → ℤ
demand v items = total (asks v) items

abbrev pub AreNonneg : List OrderItem → Type 0
AreNonneg = All (λ it. pos 0 ≤ℤ it.quantity)

-- From `inv` to `inv'`, each variant's reserved and stocked units change by the given amounts.
pub record Changes (reserved_by on_hand_by : ℕ → ℤ) (inv inv' : Inventory) : Type 0 where
  pub reserved : (v : ℕ) → reserved_total v inv' ≡ reserved_total v inv +ℤ reserved_by v
  pub on_hand : (v : ℕ) → on_hand_total v inv' ≡ on_hand_total v inv +ℤ on_hand_by v

-- What one variant's amount is to any variant.
unfoldable pub portion : ℕ → ℕ → ℤ → ℤ
portion u v a = if v == u then a else pos 0

pub portion_self : (u : ℕ) (a : ℤ) → portion u u a ≡ a
unfolding portion
portion_self u a = ground arith

pub portion_neg : (u v : ℕ) (a : ℤ) → portion u v (pos 0 -ℤ a) ≡ pos 0 -ℤ portion u v a
unfolding portion
portion_neg u v a = elim (Bool-cases (v == u)) [
  | inl e ↦ rw e
  | inr e ↦ rw e (eq_of_parts _ _ (omega int_laws))
]

pub portion_zero : (u v : ℕ) → portion u v (pos 0) ≡ pos 0
unfolding portion
portion_zero u v = ground arith

-- A count that one variant's move changes, seen from any variant.
pub moved_at :
    (x x' : ℕ → ℤ) (u : ℕ) (a : ℤ)
    → x' u ≡ x u +ℤ a
    → ((v : ℕ) → v ≢ u → x' v ≡ x v)
    → (v : ℕ) → x' v ≡ x v +ℤ portion u v a
unfolding portion
moved_at x x' u a here elsewhere v = elim (Bool-cases (v == u)) [
  | inl e ↦ rw e (let p : v ≡ u = ground arith in rw p here)
  | inr e ↦ rw e (elsewhere v (ground arith) ∙ eq_of_parts _ _ (omega int_laws))
]

pub Changes-Moves :
    {u : ℕ} {a b : ℤ} {i j : Inventory}
    → Moves u a b i j
    → Changes (λ v. portion u v a) (λ v. portion u v b) i j
Changes-Moves {u} {a} {b} {i} {j} m = record {
  reserved =
      moved_at (λ v. reserved_total v i) (λ v. reserved_total v j) u a m.reserved_here
        m.reserved_elsewhere;
  on_hand =
      moved_at (λ v. on_hand_total v i) (λ v. on_hand_total v j) u b m.on_hand_here
        m.on_hand_elsewhere;
}

pub demand_nonneg : (v : ℕ) (items : List OrderItem) → AreNonneg items → pos 0 ≤ℤ demand v items
unfolding demand
demand_nonneg v items h = total_nonneg (asks v) items (asks_nonneg items h)
  where
    asks_nonneg : (items : List OrderItem) → AreNonneg items → All (λ it. pos 0 ≤ℤ asks v it) items
    asks_nonneg [] h = tt
    asks_nonneg (it ∷ items) h = (ground arith, asks_nonneg items h.1)

pub demand-cons_none :
    (v : ℕ) (it : OrderItem) (rest : List OrderItem)
    → it.variant ≡ none
    → demand v (it ∷ rest) ≡ demand v rest
unfolding demand total
demand-cons_none v it rest e = rw e (eq_of_parts _ _ (omega int_laws))

pub demand-cons_some :
    (v u : ℕ) (it : OrderItem) (rest : List OrderItem)
    → it.variant ≡ some u
    → demand v (it ∷ rest) ≡ portion u v it.quantity +ℤ demand v rest
unfolding demand total portion
demand-cons_some v u it rest e = rw e

pub sum_then : (x y z a c e : ℤ) → y ≡ x +ℤ a → z ≡ y +ℤ c → a +ℤ c ≡ e → z ≡ x +ℤ e
sum_then x y z a c e p q r =
    eq_of_parts _ _ (omega (int_laws, parts_of_eq p, parts_of_eq q, parts_of_eq r))

pub Changes-then :
    {a b c d e f : ℕ → ℤ} {i j k : Inventory}
    → Changes a b i j
    → Changes c d j k
    → ((v : ℕ) → a v +ℤ c v ≡ e v)
    → ((v : ℕ) → b v +ℤ d v ≡ f v)
    → Changes e f i k
Changes-then p q ae bf = record {
  reserved = λ v. sum_then _ _ _ _ _ _ (p.reserved v) (q.reserved v) (ae v);
  on_hand = λ v. sum_then _ _ _ _ _ _ (p.on_hand v) (q.on_hand v) (bf v);
}

pub Changes-none :
    (a b : ℕ → ℤ) (i : Inventory)
    → ((v : ℕ) → a v ≡ pos 0)
    → ((v : ℕ) → b v ≡ pos 0)
    → Changes a b i i
Changes-none a b i az bz = record {
  reserved = λ v. rw (az v) (eq_of_parts _ _ (omega int_laws));
  on_hand = λ v. rw (bz v) (eq_of_parts _ _ (omega int_laws));
}

pub demand-nil : (v : ℕ) → demand v [] ≡ pos 0
unfolding demand total
demand-nil v = refl

pub portion_other : (u v : ℕ) (a : ℤ) → (v == u) ≡ false → portion u v a ≡ pos 0
unfolding portion
portion_other u v a e = rw e
