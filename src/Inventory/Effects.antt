-- ===== src/Inventory/Effects.antt =====
-- What one allocation does to the units that a variant has reserved and on hand, over the living
-- rows: for the loops of django_app/apps/inventory/services.py.
use ecommerce.Prelude.{
  ℕ, ◌≡◌, ◌≢◌, refl, ap, ◌∙◌, Bool, true, false, ◌&&◌, Option, List, arith, ◌==◌, if◌then◌else◌,
  All-map,
}
use ecommerce.Prelude.Int.{ℤ, pos, ◌+ℤ◌, ◌-ℤ◌, total, int_laws, eq_of_parts, parts_of_eq, +ℤ_assoc}
use mathlib.Core.Path.{subst₂}
use ecommerce.Core.Models.{Distinct, is_alive}
use ecommerce.Inventory.{Stock, stock_model, Inventory}
use ecommerce.Inventory.Allocation.{Rule, allocate, total-allocate}
use ecommerce.Inventory.Rules.{IsLocked}

abbrev pub counts : ℕ → Stock → Bool
counts variant_id s = is_alive s && s.variant == variant_id

abbrev pub held : ℕ → Stock → ℤ
held variant_id s = if counts variant_id s then s.reserved else pos 0

abbrev pub stocked : ℕ → Stock → ℤ
stocked variant_id s = if counts variant_id s then s.on_hand else pos 0

-- The units of a variant that are reserved, and that are on hand, in all warehouses.
unfoldable pub reserved_total : ℕ → Inventory → ℤ
reserved_total variant_id inv = total (held variant_id) inv.stocks

unfoldable pub on_hand_total : ℕ → Inventory → ℤ
on_hand_total variant_id inv = total (stocked variant_id) inv.stocks

-- From `inv` to `inv'` the reserved and the stocked units of one variant change by the given
-- amounts, and those of every other variant do not change.
pub record Moves (v : ℕ) (reserved_by on_hand_by : ℤ) (inv inv' : Inventory) : Type 0 where
  pub reserved_here : reserved_total v inv' ≡ reserved_total v inv +ℤ reserved_by
  pub on_hand_here : on_hand_total v inv' ≡ on_hand_total v inv +ℤ on_hand_by
  pub reserved_elsewhere : (u : ℕ) → u ≢ v → reserved_total u inv' ≡ reserved_total u inv
  pub on_hand_elsewhere : (u : ℕ) → u ≢ v → on_hand_total u inv' ≡ on_hand_total u inv

-- The ways in which a count follows the units that are taken.
pub data Sense : Type 0 where
  up down still : Sense

unfoldable pub along : Sense → ℤ → ℤ
along up n = n
along down n = pos 0 -ℤ n
along still n = pos 0

along_sub : (c : Sense) (a b : ℤ) → along c (a -ℤ b) ≡ along c a -ℤ along c b
unfolding along
along_sub up a b = refl
along_sub down a b = eq_of_parts _ _ (omega int_laws)
along_sub still a b = eq_of_parts _ _ (omega int_laws)

-- `taken` moves the two counts of a row in the given senses, and nothing else that they depend on.
pub record Acts (r : Rule) (c d : Sense) : Type 0 where
  pub reserved : (n : ℤ) (s : Stock) → (r.taken n s).reserved ≡ s.reserved +ℤ along c n
  pub on_hand : (n : ℤ) (s : Stock) → (r.taken n s).on_hand ≡ s.on_hand +ℤ along d n
  pub variant : (n : ℤ) (s : Stock) → (r.taken n s).variant ≡ s.variant
  pub deleted_at : (n : ℤ) (s : Stock) → (r.taken n s).deleted_at ≡ s.deleted_at

module _ (r : Rule) (c d : Sense) (acts : Acts r c d) where
  counts-taken : (u : ℕ) (n : ℤ) (s : Stock) → counts u (r.taken n s) ≡ counts u s
  counts-taken u n s = rw (acts.variant n s, acts.deleted_at n s)

  held-taken :
      (u v : ℕ) (n : ℤ) (s : Stock)
      → counts v s ≡ true
      → held u (r.taken n s) ≡ held u s +ℤ along (if u == v then c else still) n
  unfolding along
  held-taken u v n s h = grind (int_laws, counts-taken u n s, acts.reserved n s)

  stocked-taken :
      (u v : ℕ) (n : ℤ) (s : Stock)
      → counts v s ≡ true
      → stocked u (r.taken n s) ≡ stocked u s +ℤ along (if u == v then d else still) n
  unfolding along
  stocked-taken u v n s h = grind (int_laws, counts-taken u n s, acts.on_hand n s)

-- t' + c left = t + c n, solved for t'.
solve_total :
    (c : Sense) (t t' n left : ℤ)
    → t' +ℤ along c left ≡ t +ℤ along c n
    → t' ≡ t +ℤ along c (n -ℤ left)
solve_total c t t' n left h =
    eq_of_parts _ _ (omega (int_laws, parts_of_eq h, parts_of_eq (along_sub c n left)))

along-still : (t : ℤ) (n : ℤ) → t +ℤ along still n ≡ t
unfolding along
along-still t n = eq_of_parts _ _ (omega int_laws)

==_refl : (v : ℕ) → (v == v) ≡ true
==_refl v = ground arith

module _ (r : Rule) (c d : Sense) (acts : Acts r c d) (reference : Option ℕ) (v : ℕ)
    (rows : List Stock) (n : ℤ) (inv : Inventory) (distinct : Distinct inv.stocks)
    (locked : IsLocked v inv rows) where
  total-held :
      (u : ℕ)
      → let (left, inv') = allocate r reference rows n inv in
        reserved_total u inv'
        ≡ reserved_total u inv +ℤ along (if u == v then c else still) (n -ℤ left)
  unfolding reserved_total
  total-held u =
      let s = if u == v then c else still in
      let (left, inv') = allocate r reference rows n inv in
      solve_total s _ _ n left (
        total-allocate r reference (held u) (along s) (along_sub s) rows n inv
          (All-map _ _ (λ row h k. held-taken r c d acts u v k row h) rows locked.matching) distinct
          locked.distinct locked.stored)

  total-stocked :
      (u : ℕ)
      → let (left, inv') = allocate r reference rows n inv in
        on_hand_total u inv'
        ≡ on_hand_total u inv +ℤ along (if u == v then d else still) (n -ℤ left)
  unfolding on_hand_total
  total-stocked u =
      let s = if u == v then d else still in
      let (left, inv') = allocate r reference rows n inv in
      solve_total s _ _ n left (
        total-allocate r reference (stocked u) (along s) (along_sub s) rows n inv
          (All-map _ _ (λ row h k. stocked-taken r c d acts u v k row h) rows locked.matching)
          distinct locked.distinct locked.stored)

  -- An allocation moves the two counts of its variant by what it has taken.
  pub allocate-Moves :
      let (left, inv') = allocate r reference rows n inv in
      Moves v (along c (n -ℤ left)) (along d (n -ℤ left)) inv inv'
  allocate-Moves = record {
    reserved_here = rw (==_refl v) at (total-held v);
    on_hand_here = rw (==_refl v) at (total-stocked v);
    reserved_elsewhere = λ u ne. rw (not_eq u ne) at (total-held u) ∙ along-still _ _;
    on_hand_elsewhere = λ u ne. rw (not_eq u ne) at (total-stocked u) ∙ along-still _ _;
  }
    where
      not_eq : (u : ℕ) → u ≢ v → (u == v) ≡ false
      not_eq u ne = ground arith

pub Moves-trans :
    {v : ℕ} {a b c d : ℤ} {i j k : Inventory}
    → Moves v a b i j
    → Moves v c d j k
    → Moves v (a +ℤ c) (b +ℤ d) i k
Moves-trans {a} {b} {c} {d} p q = record {
  reserved_here = q.reserved_here ∙ ap (λ t. t +ℤ c) p.reserved_here ∙ +ℤ_assoc _ a c;
  on_hand_here = q.on_hand_here ∙ ap (λ t. t +ℤ d) p.on_hand_here ∙ +ℤ_assoc _ b d;
  reserved_elsewhere = λ u ne. q.reserved_elsewhere u ne ∙ p.reserved_elsewhere u ne;
  on_hand_elsewhere = λ u ne. q.on_hand_elsewhere u ne ∙ p.on_hand_elsewhere u ne;
}

pub Moves-eq :
    {v : ℕ} {a b c d : ℤ} {i j : Inventory} → a ≡ c → b ≡ d → Moves v a b i j → Moves v c d i j
Moves-eq {v} {i = i} {j = j} p q h = subst₂ (λ x y. Moves v x y i j) p q h
