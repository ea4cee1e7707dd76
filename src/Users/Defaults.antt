-- ===== src/Users/Defaults.antt =====
-- Default addresses over any sequence of requests: django_app/apps/users/views.py.
use ecommerce.Prelude.{
  ℕ, ◌+◌, ◌≤◌, ◌≡◌, refl, inl, inr, Bool, false, ◌&&◌, none, some, List, [], ◌∷◌, ◌++◌, arith, ◌==◌,
  filter_by, length, Bool-cases,
}
use ecommerce.Core.Models.{alive, is_alive, update_where, update_fields, save, lookup, Distinct}
use ecommerce.Users.Addresses.{
  AddressKind, Address, address_model, AddressInput, is_kind_of, no_default, as_default, with_input,
}

-- How many default addresses of a kind a user has.
unfoldable pub defaults : ℕ → AddressKind → List Address → ℕ
unfolding alive
defaults u k t = length (filter_by (λ a. is_kind_of u k a && a.is_default) (alive t))

module _ (u : ℕ) (k : AddressKind) where
  pub defaults-cleared :
      (t : List Address) → defaults u k (update_where (is_kind_of u k) no_default t) ≡ 0
  unfolding defaults update_where alive
  defaults-cleared [] = refl
  defaults-cleared (a ∷ t) = ground (arith, defaults-cleared t)

  pub defaults-plain :
      (j : ℕ) (input : AddressInput) (t : List Address)
      → input.is_default ≡ false
      → defaults u k (update_fields j (with_input input) t) ≤ defaults u k t
  unfolding defaults update_fields alive
  defaults-plain j input [] h = omega arith
  defaults-plain j input (a ∷ t) h = ground (arith, defaults-plain j input t h)

  pub defaults-clearing :
      (p : Address → Bool) (t : List Address)
      → defaults u k (update_where p no_default t) ≤ defaults u k t
  unfolding defaults update_where alive
  defaults-clearing p [] = omega arith
  defaults-clearing p (a ∷ t) = ground (arith, defaults-clearing p t)

  pub defaults-append :
      (a : Address) (t : List Address)
      → defaults u k (t ++ a ∷ []) ≡ defaults u k t + defaults u k (a ∷ [])
  unfolding defaults alive
  defaults-append a [] = omega arith
  defaults-append a (b ∷ t) = ground (arith, defaults-append a t)

  defaults-absent :
      (j : ℕ) (p : Address → Bool) (t : List Address)
      → lookup j t ≡ none
      → defaults u k (update_fields j as_default (update_where p no_default t))
        ≤ defaults u k (update_where p no_default t)
  unfolding defaults update_where update_fields lookup alive
  defaults-absent j p [] h = omega arith
  defaults-absent j p (a ∷ t) h = ground (arith, defaults-absent j p t)

  pub defaults-chosen :
      (j : ℕ) (t : List Address)
      → Distinct t
      → defaults u k (update_fields j as_default (update_where (is_kind_of u k) no_default t)) ≤ 1
  unfolding defaults update_where update_fields alive
  defaults-chosen j [] d = omega arith
  defaults-chosen j (a ∷ t) d = elim (Bool-cases (a.id == j)) [
    | inl e ↦
        let same : a.id ≡ j = ground arith in
        ground (arith, defaults-absent j (is_kind_of u k) t (rw same at d.0), defaults-cleared t)
    | inr e ↦ ground (arith, defaults-chosen j t d.1)
  ]

  pub defaults-other :
      (j : ℕ) (p : Address → Bool) (a : Address) (t : List Address)
      → Distinct t
      → lookup j t ≡ some a
      → is_kind_of u k a ≡ false
      → defaults u k (update_fields j as_default (update_where p no_default t)) ≤ defaults u k t
  unfolding defaults update_where update_fields lookup alive
  defaults-other j p a [] d h other = cc
  defaults-other j p a (b ∷ t) d h other = elim (Bool-cases (b.id == j)) [
    | inl e ↦
        let same : b.id ≡ j = ground arith in
        let here : b ≡ a = ground arith in
        ground (arith, defaults-absent j p t (rw same at d.0), defaults-clearing p t)
    | inr e ↦ ground (arith, defaults-other j p a t d.1)
  ]

  pub defaults-hidden :
      (r : Address) (t : List Address)
      → is_alive r ≡ false
      → defaults u k (save r t) ≤ defaults u k t
  unfolding defaults save alive
  defaults-hidden r [] h = omega arith
  defaults-hidden r (a ∷ t) h = ground (arith, defaults-hidden r t h)
