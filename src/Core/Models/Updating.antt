-- ===== src/Core/Models/Updating.antt =====
-- Looking up rows after an UPDATE of some columns and after an INSERT, for
-- django_app/apps/core/models.py.
use ecommerce.Prelude.{ℕ, ◌≡◌, ◌≢◌, refl, some, List, [], ◌∷◌, ◌++◌, arith}
use ecommerce.Core.Models.{Model, lookup, update_fields}

module _ {A : Type 0} ⦃m : Model A⦄ where
  pub lookup-append_other :
      (j : ℕ) (a : A) (t : List A) → m.pk a ≢ j → lookup j (t ++ a ∷ []) ≡ lookup j t
  unfolding lookup
  lookup-append_other j a [] ne = ground arith
  lookup-append_other j a (b ∷ t) ne = ground (arith, lookup-append_other j a t ne)

  module _ (k : ℕ) (f : A → A) (keeps : (a : A) → m.pk (f a) ≡ m.pk a) where
    pub lookup-update_fields_ne :
        (j : ℕ) (t : List A) → k ≢ j → lookup j (update_fields k f t) ≡ lookup j t
    unfolding lookup update_fields
    lookup-update_fields_ne j [] ne = refl
    lookup-update_fields_ne j (a ∷ t) ne = ground (arith, keeps a, lookup-update_fields_ne j t ne)

    pub lookup-update_fields_self :
        (a : A) (t : List A) → lookup k t ≡ some a → lookup k (update_fields k f t) ≡ some (f a)
    unfolding lookup update_fields
    lookup-update_fields_self a [] h = cc
    lookup-update_fields_self a (b ∷ t) h = ground (arith, keeps b, lookup-update_fields_self a t)
