-- ===== src/Users/Updating.antt =====
-- The update of an address, which may leave two defaults: django_app/apps/users/views.py.
use ecommerce.Prelude.{
  ℕ, ◌+◌, ◌≡◌, refl, inl, inr, true, false, ◌&&◌, none, List, [], ◌∷◌, arith, ◌==◌, Bool-cases,
  &&-eq_true,
}
use ecommerce.Exec.{ok}
use ecommerce.Core.Models.{alive, is_alive, update_fields, lookup, Distinct, IsStored}
use ecommerce.Database.Queries.{get_one-ok}
use ecommerce.Users.Addresses.{
  AddressKind, kind_eq, Address, address_model, AddressInput, with_input, update, own_address,
}
use ecommerce.Users.Defaults.{defaults}
use ecommerce.Users.Book.{IsBook}

update_fields-absent :
    (j : ℕ) (f : Address → Address) (t : List Address) → lookup j t ≡ none → update_fields j f t ≡ t
unfolding update_fields lookup
update_fields-absent j f [] h = refl
update_fields-absent j f (a ∷ t) h = ground (arith, update_fields-absent j f t)

kind_eq_refl : (k : AddressKind) → kind_eq k k ≡ true
kind_eq_refl k = ground arith

defaults-update :
    (u : ℕ) (input : AddressInput) (b : Address) (t : List Address)
    → Distinct t
    → IsStored t b
    → is_alive b ≡ true
    → (b.user == u) ≡ true
    → (b.is_default && kind_eq b.kind input.kind) ≡ false
    → input.is_default ≡ true
    → defaults u input.kind (update_fields b.id (with_input input) t) ≡ 1 + defaults u input.kind t
unfolding defaults update_fields lookup alive
defaults-update u input b [] d stored lives mine plain default = cc
defaults-update u input b (a ∷ t) d stored lives mine plain default =
    elim (Bool-cases (a.id == b.id)) [
      | inl e ↦
          let same : a.id ≡ b.id = ground arith in
          let here : a ≡ b = ground arith in
          rw here (
            ground (
              arith,
              update_fields-absent b.id (with_input input) t (rw same at d.0),
              kind_eq_refl input.kind,
            ))
      | inr e ↦ ground (arith, defaults-update u input b t d.1)
    ]

-- The update of an address of the user, which is not a default one of the kind that the request
-- names, makes it a default one and leaves the others: the user has one more than before, so two
-- where there was one.
pub defaults-update_two :
    (user id : ℕ) (input : AddressInput) (t : List Address) (b : Address)
    → IsBook t
    → own_address user id t ≡ ok b
    → (b.is_default && kind_eq b.kind input.kind) ≡ false
    → input.is_default ≡ true
    → defaults user input.kind (update user id input t) ≡ 1 + defaults user input.kind t
unfolding update
defaults-update_two user id input t b book found plain default =
    let (stored, lives, fits) =
      get_one-ok (λ a. a.user == user && a.id == id) t b book.distinct found in
    let (mine, e) = &&-eq_true (b.user == user) (b.id == id) fits in
    rw found (defaults-update user input b t book.distinct stored lives mine plain default)
