-- ===== src/Core/Models/Sorting.antt =====
-- `order_by`: the rows in the order of a key. Rows with equal keys come in any order from the
-- database; here they keep the order of the table, and no theorem depends on it.
use ecommerce.Prelude.{
  ℕ, ◌≡◌, refl, ap, ◌∙◌, Bool, none, List, [], ◌∷◌, arith, if◌then◌else◌, All, All-map, Bool-cases,
  inl, inr, true, false,
}
use ecommerce.Prelude.Int.{ℤ, ◌+ℤ◌, total, int_laws}
use ecommerce.Core.Models.{Model, lookup, Distinct}

module _ {A : Type 0} where
  unfoldable pub insert_by : (A → A → Bool) → A → List A → List A
  insert_by le a [] = a ∷ []
  insert_by le a (b ∷ xs) = let rest = insert_by le a xs in if le a b then a ∷ b ∷ xs else b ∷ rest

  unfoldable pub order_by : (A → A → Bool) → List A → List A
  unfolding insert_by
  order_by le [] = []
  order_by le (a ∷ xs) = insert_by le a (order_by le xs)

  insert_by-All :
      (P : A → Type 0) (le : A → A → Bool) (a : A) (xs : List A)
      → P a
      → All P xs
      → All P (insert_by le a xs)
  unfolding insert_by
  insert_by-All P le a [] h hs = (h, tt)
  insert_by-All P le a (b ∷ xs) h hs = ground (arith, insert_by-All P le a xs h hs.1)

  pub order_by-All :
      (P : A → Type 0) (le : A → A → Bool) (xs : List A) → All P xs → All P (order_by le xs)
  unfolding order_by
  order_by-All P le [] hs = tt
  order_by-All P le (a ∷ xs) hs =
      insert_by-All P le a (order_by le xs) hs.0 (order_by-All P le xs hs.1)

  total-insert_by :
      (w : A → ℤ) (le : A → A → Bool) (a : A) (xs : List A)
      → total w (insert_by le a xs) ≡ w a +ℤ total w xs
  unfolding insert_by total
  total-insert_by w le a [] = refl
  total-insert_by w le a (b ∷ xs) = grind (int_laws, total-insert_by w le a xs)

  pub total-order_by :
      (w : A → ℤ) (le : A → A → Bool) (xs : List A) → total w (order_by le xs) ≡ total w xs
  unfolding order_by total
  total-order_by w le [] = refl
  total-order_by w le (a ∷ xs) =
      total-insert_by w le a (order_by le xs) ∙ ap (λ z. w a +ℤ z) (total-order_by w le xs)

  -- Every row stands in the relation to all that follow it.
  abbrev pub IsSorted : (A → A → Type 0) → List A → Type 0
  IsSorted R [] = Unit
  IsSorted R (a ∷ xs) = All (R a) xs × IsSorted R xs

  module _ (D R : A → A → Type 0) (le : A → A → Bool)
      (yes : (a b : A) → D a b → le a b ≡ true → R a b)
      (no : (a b : A) → D a b → le a b ≡ false → R b a)
      (trans : (a b c : A) → R a b → R b c → R a c) where
    insert_by-IsSorted :
        (a : A) (xs : List A) → All (D a) xs → IsSorted R xs → IsSorted R (insert_by le a xs)
    unfolding insert_by
    insert_by-IsSorted a [] d s = (tt, tt)
    insert_by-IsSorted a (b ∷ xs) d s = elim (Bool-cases (le a b)) [
      | inl e ↦
          let up : R a b = yes a b d.0 e in
          rw e ((up, All-map (R b) (R a) (λ c h. trans a b c up h) xs s.0), s)
      | inr e ↦
          rw e (insert_by-All (R b) le a xs (no a b d.0 e) s.0, insert_by-IsSorted a xs d.1 s.1)
    ]

    -- Rows that can be told apart, by `D`, come in the order of `R`.
    pub order_by-IsSorted : (xs : List A) → IsSorted D xs → IsSorted R (order_by le xs)
    unfolding order_by
    order_by-IsSorted [] d = tt
    order_by-IsSorted (a ∷ xs) d =
        insert_by-IsSorted a (order_by le xs) (order_by-All (D a) le xs d.0)
          (order_by-IsSorted xs d.1)

module _ {A : Type 0} ⦃m : Model A⦄ where
  lookup-insert_by-none :
      (le : A → A → Bool) (j : ℕ) (a : A) (xs : List A)
      → lookup j (a ∷ xs) ≡ none
      → lookup j (insert_by le a xs) ≡ none
  unfolding insert_by lookup
  lookup-insert_by-none le j a [] h = h
  lookup-insert_by-none le j a (b ∷ xs) h = ground (arith, lookup-insert_by-none le j a xs)

  insert_by-Distinct :
      (le : A → A → Bool) (a : A) (xs : List A) → Distinct (a ∷ xs) → Distinct (insert_by le a xs)
  unfolding insert_by lookup
  insert_by-Distinct le a [] d = d
  insert_by-Distinct le a (b ∷ xs) d =
      ground (arith, insert_by-Distinct le a xs, lookup-insert_by-none le (m.pk b) a xs)

  lookup-order_by-none :
      (le : A → A → Bool) (j : ℕ) (xs : List A)
      → lookup j xs ≡ none
      → lookup j (order_by le xs) ≡ none
  unfolding order_by lookup
  lookup-order_by-none le j [] h = h
  lookup-order_by-none le j (a ∷ xs) h =
      lookup-insert_by-none le j a (order_by le xs) (ground (arith, lookup-order_by-none le j xs))

  pub order_by-Distinct :
      (le : A → A → Bool) (xs : List A) → Distinct xs → Distinct (order_by le xs)
  unfolding order_by
  order_by-Distinct le [] d = tt
  order_by-Distinct le (a ∷ xs) d =
      insert_by-Distinct le a (order_by le xs)
        (lookup-order_by-none le (m.pk a) xs d.0, order_by-Distinct le xs d.1)
