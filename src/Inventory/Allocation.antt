-- ===== src/Inventory/Allocation.antt =====
-- What the loops of django_app/apps/inventory/services.py have in common: they walk over locked
-- rows, take from each what it offers, and write the row with a movement.
use ecommerce.Prelude.{
  ℕ, ◌≡◌, refl, ◌∙◌, inl, inr, true, false, ◌&&◌, Option, List, [], ◌∷◌, arith, Bool-cases, All,
}
use ecommerce.Prelude.Int.{
  ℤ, pos, ◌+ℤ◌, ◌-ℤ◌, ◌≤ℤ◌, leb_ℤ, min_ℤ, max_ℤ, total, int_laws, total_nonneg, eq_of_parts,
  parts_of_eq,
}
use ecommerce.Core.Models.{save, Distinct, IsStored}
use ecommerce.Core.Models.Rows.{save-Distinct, total-save, All-IsStored-save}
use ecommerce.Inventory.{Stock, stock_model, Reason, Inventory, write}

-- How one loop treats a row: what the row offers, and the row after `n` units are taken.
pub record Rule : Type 0 where
  pub offer : Stock → ℤ
  pub taken : ℤ → Stock → Stock
  pub quantity : ℤ → ℤ
  pub reason : Reason
  pub same_id : (n : ℤ) (s : Stock) → (taken n s).id ≡ s.id

module _ (r : Rule) (reference : Option ℕ) where
  unfoldable pub allocate : List Stock → ℤ → Inventory → ℤ × Inventory
  allocate [] remaining inv = (remaining, inv)
  allocate (s ∷ rows) remaining inv = elim (leb_ℤ remaining (pos 0)) [
    | true ↦ (remaining, inv)
    | false ↦
        let take = min_ℤ (r.offer s) remaining in
        elim (leb_ℤ take (pos 0) && leb_ℤ (pos 0) take) [
          | true ↦ allocate rows remaining inv
          | false ↦
              allocate rows (remaining -ℤ take)
                (write (r.taken take s) (r.quantity take) r.reason reference "" inv)
        ]
  ]

  -- The three ways in which a round goes.
  pub allocate-cons :
      (Q : ℤ × Inventory → Type 0) (s : Stock) (rows : List Stock) (remaining : ℤ) (inv : Inventory)
      → (remaining ≤ℤ pos 0 → Q (remaining, inv))
      → (pos 1 ≤ℤ remaining
          → pos 0 ≤ℤ min_ℤ (r.offer s) remaining
          → min_ℤ (r.offer s) remaining ≤ℤ pos 0
          → Q (allocate rows remaining inv))
      → (let take = min_ℤ (r.offer s) remaining in
          pos 1 ≤ℤ remaining
          → Q (
              allocate rows
                (remaining -ℤ take)
                (write (r.taken take s) (r.quantity take) r.reason reference "" inv)))
      → Q (allocate (s ∷ rows) remaining inv)
  unfolding allocate
  allocate-cons Q s rows remaining inv stop skip go = elim (Bool-cases (leb_ℤ remaining (pos 0))) [
    | inl e ↦ rw (e, allocate) (stop (omega int_laws))
    | inr e ↦
        let take = min_ℤ (r.offer s) remaining in
        elim (Bool-cases (leb_ℤ take (pos 0) && leb_ℤ (pos 0) take)) [
          | inl e' ↦ rw (e, e', allocate) (skip (omega int_laws) (ground arith) (ground arith))
          | inr e' ↦ rw (e, e', allocate) (go (omega int_laws))
        ]
  ]

  -- What is left is what the rows could not offer.
  pub remaining-allocate :
      (rows : List Stock) (remaining : ℤ) (inv : Inventory)
      → All (λ s. pos 0 ≤ℤ r.offer s) rows
      → pos 0 ≤ℤ remaining
      → (allocate rows remaining inv).0 ≡ max_ℤ (remaining -ℤ total r.offer rows) (pos 0)
  unfolding total
  remaining-allocate [] remaining inv h h' = unfold allocate in eq_of_parts _ _ (omega int_laws)
  remaining-allocate (s ∷ rows) remaining inv h h' =
      let rest = total_nonneg r.offer rows h.1 in
      let take = min_ℤ (r.offer s) remaining in
      let t = total r.offer rows in
      let goal = max_ℤ (remaining -ℤ (r.offer s +ℤ t)) (pos 0) in
      allocate-cons (λ p. p.0 ≡ goal) s rows remaining inv
        (λ a. eq_of_parts remaining goal (omega (int_laws, rest, h.0)))
        (λ a b c.
          remaining-allocate rows remaining inv h.1 h'
          ∙ eq_of_parts (max_ℤ (remaining -ℤ t) (pos 0)) goal (omega (int_laws, rest, h.0)))
        (λ a.
          remaining-allocate rows (remaining -ℤ take)
            (write (r.taken take s) (r.quantity take) r.reason reference "" inv) h.1
            (omega int_laws)
          ∙ eq_of_parts (max_ℤ (remaining -ℤ take -ℤ t) (pos 0)) goal (omega (int_laws, rest, h.0)))

  -- An invariant of the whole database that each single write keeps.
  pub allocate-induct :
      (P : Inventory → Type 0) (rows : List Stock) (remaining : ℤ) (inv : Inventory)
      → All
          (λ s.
            (remaining : ℤ) (inv : Inventory)
            → pos 1 ≤ℤ remaining
            → P inv
            → let take = min_ℤ (r.offer s) remaining in
              P (write (r.taken take s) (r.quantity take) r.reason reference "" inv))
          rows
      → P inv
      → P (allocate rows remaining inv).1
  allocate-induct P [] remaining inv hs h = unfold allocate in h
  allocate-induct P (s ∷ rows) remaining inv hs h =
      allocate-cons (λ p. P p.1) s rows remaining inv (λ a. h)
        (λ a b c. allocate-induct P rows remaining inv hs.1 h)
        (λ a. allocate-induct P rows _ _ hs.1 (hs.0 remaining inv a h))

  pub allocate-Distinct :
      (rows : List Stock) (remaining : ℤ) (inv : Inventory)
      → Distinct inv.stocks
      → Distinct (allocate rows remaining inv).1.stocks
  unfolding write
  allocate-Distinct [] remaining inv d = unfold allocate in d
  allocate-Distinct (s ∷ rows) remaining inv d =
      allocate-cons (λ p. Distinct p.1.stocks) s rows remaining inv (λ a. d)
        (λ a b c. allocate-Distinct rows remaining inv d)
        (λ a. allocate-Distinct rows _ _ (save-Distinct _ inv.stocks d))

  -- A sum over the stock table moves with what is taken: `c` says how.
  module _ (w : Stock → ℤ) (c : ℤ → ℤ) (c_sub : (a b : ℤ) → c (a -ℤ b) ≡ c a -ℤ c b) where
    pub total-allocate :
        (rows : List Stock) (remaining : ℤ) (inv : Inventory)
        → All (λ s. (n : ℤ) → w (r.taken n s) ≡ w s +ℤ c n) rows
        → Distinct inv.stocks
        → Distinct rows
        → All (IsStored inv.stocks) rows
        → let (left, inv') = allocate rows remaining inv in
          total w inv'.stocks +ℤ c left ≡ total w inv.stocks +ℤ c remaining
    unfolding write
    total-allocate [] remaining inv hs d dr st = unfold allocate in refl
    total-allocate (s ∷ rows) remaining inv hs d dr st =
        let take = min_ℤ (r.offer s) remaining in
        let s' = r.taken take s in
        let inv' = write s' (r.quantity take) r.reason reference "" inv in
        let e : s'.id ≡ s.id = r.same_id take s in
        allocate-cons (λ p. total w p.1.stocks +ℤ c p.0 ≡ total w inv.stocks +ℤ c remaining) s rows
          remaining inv (λ a. refl) (λ a b d'. total-allocate rows remaining inv hs.1 d dr.1 st.1)
          (λ a.
            total-allocate rows (remaining -ℤ take) inv' hs.1 (save-Distinct s' inv.stocks d) dr.1
              (All-IsStored-save s' inv.stocks rows (rw e dr.0) st.1)
            ∙ step (total w inv.stocks) (total w (save s' inv.stocks)) (w s) (w s') (c take)
                (c remaining) (c (remaining -ℤ take)) (total-save w s' s inv.stocks d (rw e st.0))
                (hs.0 take) (c_sub remaining take))
      where
        step :
            (t t' a a' x y z : ℤ) → t' +ℤ a ≡ t +ℤ a' → a' ≡ a +ℤ x → z ≡ y -ℤ x → t' +ℤ z ≡ t +ℤ y
        step t t' a a' x y z p q u =
            eq_of_parts _ _ (omega (int_laws, parts_of_eq p, parts_of_eq q, parts_of_eq u))
