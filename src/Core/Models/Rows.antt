-- ===== src/Core/Models/Rows.antt =====
-- Looking up and saving rows by their keys, for django_app/apps/core/models.py.
use ecommerce.Prelude.{
  ℕ, ◌≡◌, ◌≢◌, refl, ◌∙◌, inl, inr, Bool, none, some, List, [], ◌∷◌, ◌++◌, arith, ◌==◌, Bool-cases,
  filter_by, All, All-map,
}
use ecommerce.Prelude.Int.{ℤ, ◌+ℤ◌, total, int_laws}
use ecommerce.Core.Models.{Model, lookup, save, Distinct, IsStored}

module _ {A : Type 0} ⦃m : Model A⦄ where
  pub lookup-save_ne : (j : ℕ) (r : A) (t : List A) → m.pk r ≢ j → lookup j (save r t) ≡ lookup j t
  unfolding lookup save
  lookup-save_ne j r [] h = refl
  lookup-save_ne j r (a ∷ t) h = ground (arith, lookup-save_ne j r t h)

  pub lookup-save_self :
      (r s : A) (t : List A) → lookup (m.pk r) t ≡ some s → lookup (m.pk r) (save r t) ≡ some r
  unfolding lookup save
  lookup-save_self r s [] h = cc
  lookup-save_self r s (a ∷ t) h = ground (arith, lookup-save_self r s t)

  pub lookup-save-none :
      (j : ℕ) (r : A) (t : List A) → lookup j t ≡ none → lookup j (save r t) ≡ none
  unfolding lookup save
  lookup-save-none j r [] h = refl
  lookup-save-none j r (a ∷ t) h = ground (arith, lookup-save-none j r t)

  pub pk-lookup : (j : ℕ) (r : A) (t : List A) → lookup j t ≡ some r → m.pk r ≡ j
  unfolding lookup
  pk-lookup j r [] h = cc
  pk-lookup j r (a ∷ t) h = ground (arith, pk-lookup j r t)

  pub save-Distinct : (r : A) (t : List A) → Distinct t → Distinct (save r t)
  unfolding save
  save-Distinct r [] d = tt
  save-Distinct r (a ∷ t) d = elim (Bool-cases (m.pk a == m.pk r)) [
    | inl e ↦ rw e (lookup-save-none (m.pk r) r t (ground (arith, d.0)), save-Distinct r t d.1)
    | inr e ↦ rw e (lookup-save-none (m.pk a) r t d.0, save-Distinct r t d.1)
  ]

  -- A row that is not there is not saved.
  pub save-absent : (r : A) (t : List A) → lookup (m.pk r) t ≡ none → save r t ≡ t
  unfolding lookup save
  save-absent r [] h = refl
  save-absent r (a ∷ t) h = ground (arith, save-absent r t)

  -- A save moves a sum by what it changes in its row.
  pub total-save :
      (w : A → ℤ) (r s : A) (t : List A)
      → Distinct t
      → lookup (m.pk r) t ≡ some s
      → total w (save r t) +ℤ w s ≡ total w t +ℤ w r
  unfolding lookup save total
  total-save w r s [] d h = cc
  total-save w r s (a ∷ t) d h = elim (Bool-cases (m.pk a == m.pk r)) [
    | inl e ↦
        rw (e, save-absent r t (ground (arith, d.0)))
          (let q : a ≡ s = ground arith in rw q (omega int_laws))
    | inr e ↦ rw e (grind (int_laws, total-save w r s t d.1))
  ]

  pub lookup-filter_none :
      (p : A → Bool) (j : ℕ) (t : List A) → lookup j t ≡ none → lookup j (filter_by p t) ≡ none
  unfolding lookup
  lookup-filter_none p j [] h = refl
  lookup-filter_none p j (a ∷ t) h = ground (arith, lookup-filter_none p j t)

  pub filter-Distinct : (p : A → Bool) (t : List A) → Distinct t → Distinct (filter_by p t)
  filter-Distinct p [] d = tt
  filter-Distinct p (a ∷ t) d =
      ground (arith, filter-Distinct p t d.1, lookup-filter_none p (m.pk a) t d.0)

  pub IsStored-cons :
      (a : A) (t : List A) → lookup (m.pk a) t ≡ none → (r : A) → IsStored t r → IsStored (a ∷ t) r
  unfolding lookup
  IsStored-cons a t d r h = ground arith

  -- What a query reads stands in the table.
  pub filter-IsStored : (p : A → Bool) (t : List A) → Distinct t → All (IsStored t) (filter_by p t)
  unfolding lookup
  filter-IsStored p [] d = tt
  filter-IsStored p (a ∷ t) d =
      let rest : All (IsStored (a ∷ t)) (filter_by p t) =
        All-map (IsStored t) (IsStored (a ∷ t)) (IsStored-cons a t d.0) (filter_by p t)
          (filter-IsStored p t d.1) in
      ground arith

  -- Saving a row leaves the other rows of a query as they were read.
  pub All-IsStored-save :
      (r : A) (t rows : List A)
      → lookup (m.pk r) rows ≡ none
      → All (IsStored t) rows
      → All (IsStored (save r t)) rows
  unfolding lookup
  All-IsStored-save r t [] absent stored = tt
  All-IsStored-save r t (a ∷ rows) absent stored =
      let ne : m.pk r ≢ m.pk a = ground arith in
      (
        lookup-save_ne (m.pk a) r t ne ∙ stored.0,
        All-IsStored-save r t rows (ground arith) stored.1,
      )

  pub save-All : (P : A → Type 0) (r : A) (t : List A) → P r → All P t → All P (save r t)
  unfolding save
  save-All P r [] h hs = tt
  save-All P r (a ∷ t) h hs = ground (arith, save-All P r t h hs.1)

  pub All-lookup :
      (P : A → Type 0) (j : ℕ) (a : A) (t : List A) → All P t → lookup j t ≡ some a → P a
  unfolding lookup
  All-lookup P j a [] hs h = cc
  All-lookup P j a (b ∷ t) hs h = grind (arith, All-lookup P j a t hs.1)

  lookup-append_ne :
      (j : ℕ) (a : A) (t : List A) → lookup j t ≡ none → m.pk a ≢ j → lookup j (t ++ a ∷ []) ≡ none
  unfolding lookup
  lookup-append_ne j a [] h ne = ground arith
  lookup-append_ne j a (b ∷ t) h ne = ground (arith, lookup-append_ne j a t)

  -- A row that is inserted under a new key.
  pub lookup-append_new :
      (a : A) (t : List A) → lookup (m.pk a) t ≡ none → lookup (m.pk a) (t ++ a ∷ []) ≡ some a
  unfolding lookup
  lookup-append_new a [] h = ground arith
  lookup-append_new a (b ∷ t) h = ground (arith, lookup-append_new a t)

  pub append-Distinct :
      (a : A) (t : List A) → Distinct t → lookup (m.pk a) t ≡ none → Distinct (t ++ a ∷ [])
  unfolding lookup
  append-Distinct a [] d h = (refl, tt)
  append-Distinct a (b ∷ t) d h = (
    lookup-append_ne (m.pk b) a t d.0 (λ e. ground arith),
    append-Distinct a t d.1 (ground arith),
  )
