-- ===== src/Core/Models/Filtering.antt =====
-- Queries after a row is inserted or saved, for django_app/apps/core/models.py.
use ecommerce.Prelude.{
  ◌≡◌, refl, sym, ap, inl, inr, Bool, true, false, List, [], ◌∷◌, ◌++◌, arith, ◌==◌, filter_by, any,
  Bool-cases,
}
use ecommerce.Core.Models.{Model, save, lookup, Distinct, IsStored}
use ecommerce.Core.Models.Rows.{save-absent}

module _ {A : Type 0} ⦃m : Model A⦄ where
  module _ (p : A → Bool) where
    pub filter-append_no :
        (a : A) (t : List A) → p a ≡ false → filter_by p (t ++ a ∷ []) ≡ filter_by p t
    filter-append_no a [] h = ground arith
    filter-append_no a (b ∷ t) h = ground (arith, filter-append_no a t h)

    pub filter-append_yes :
        (a : A) (t : List A) → p a ≡ true → filter_by p t ≡ [] → filter_by p (t ++ a ∷ []) ≡ a ∷ []
    filter-append_yes a [] h e = ground arith
    filter-append_yes a (b ∷ t) h e = ground (arith, filter-append_yes a t h)

    pub any-filter_none : (t : List A) → filter_by p t ≡ [] → any p t ≡ false
    any-filter_none [] h = refl
    any-filter_none (b ∷ t) h = ground (arith, any-filter_none t)

    pub filter-save_no :
        (r s : A) (t : List A)
        → Distinct t
        → IsStored t r
        → m.pk s ≡ m.pk r
        → p r ≡ false
        → p s ≡ false
        → filter_by p (save s t) ≡ filter_by p t
    unfolding save lookup
    filter-save_no r s [] d h e f g = refl
    filter-save_no r s (a ∷ t) d h e f g = elim (Bool-cases (m.pk a == m.pk s)) [
      | inl same ↦
          let here : a ≡ r = ground arith in
          let key : m.pk a ≡ m.pk s = ground arith in
          rw (same, g, here, f) (ap (filter_by p) (save-absent s t (rw key at d.0)))
      | inr ne ↦ ground (arith, filter-save_no r s t d.1)
    ]

    pub filter-save_yes :
        (r s : A) (t : List A)
        → Distinct t
        → IsStored t r
        → m.pk s ≡ m.pk r
        → p r ≡ true
        → p s ≡ true
        → filter_by p t ≡ r ∷ []
        → filter_by p (save s t) ≡ s ∷ []
    unfolding save lookup
    filter-save_yes r s [] d h e f g one = cc
    filter-save_yes r s (a ∷ t) d h e f g one = elim (Bool-cases (m.pk a == m.pk s)) [
      | inl same ↦
          let here : a ≡ r = ground arith in
          let key : m.pk a ≡ m.pk s = ground arith in
          let kept : p a ≡ true = rw here f in
          let tail : filter_by p t ≡ [] = grind arith in
          rw (same, g, save-absent s t (rw key at d.0)) (ap (λ (z : List A). s ∷ z) tail)
      | inr ne ↦ elim (Bool-cases (p a)) [
        | inl k ↦ let q : a ≡ r = grind arith in absurd (ground arith)
        | inr k ↦ ground (arith, filter-save_yes r s t d.1)
      ]
    ]

  pub save-stored : (r : A) (t : List A) → Distinct t → IsStored t r → save r t ≡ t
  unfolding save lookup
  save-stored r [] d h = refl
  save-stored r (a ∷ t) d h = elim (Bool-cases (m.pk a == m.pk r)) [
    | inl e ↦
        let here : a ≡ r = ground arith in
        let key : m.pk a ≡ m.pk r = ground arith in
        rw (e, save-absent r t (rw key at d.0)) (ap (λ (x : A). x ∷ t) (sym here))
    | inr e ↦ ground (arith, save-stored r t d.1)
  ]
