-- ===== src/Users/Book.antt =====
-- The address book over any sequence of requests, and the request that puts two defaults into it:
-- django_app/apps/users/views.py.
use ecommerce.Prelude.{
  ℕ, ◌≤◌, ◌≡◌, refl, inl, inr, Bool, true, false, ◌&&◌, none, some, List, [], ◌∷◌, arith, ◌==◌,
  Bool-cases, &&-eq_true,
}
use ecommerce.Core.Models.{update_where, update_fields, lookup, Distinct, IsStored, delete_instance}
use ecommerce.Core.Models.Rows.{save-Distinct}
use ecommerce.Database.Queries.{get_one-ok, Result-cases}
use ecommerce.Users.Addresses.{
  AddressKind, kind_eq, Address, address_model, AddressInput, is_kind_of, no_default, as_default,
  perform_create, own_address, after_get, set_default, make_default, destroy, with_input, update,
}
use ecommerce.Users.Defaults.{
  defaults, defaults-chosen, defaults-other, defaults-hidden, defaults-plain,
}

pub record IsBook (t : List Address) : Type 0 where
  pub distinct : Distinct t
  pub one_default : (u : ℕ) (k : AddressKind) → defaults u k t ≤ 1

-- A request, with its time and the key that a new row gets.
pub data Request : Type 0 where
  creates : ℕ → ℕ → AddressInput → Request
  makes_default : ℕ → Request
  destroys : ℕ → ℕ → Request
  updates : ℕ → AddressInput → Request

abbrev pub serve : ℕ × Request → List Address → List Address
serve (user, creates now id input) t = perform_create now id user input t
serve (user, makes_default id) t = make_default user id t
serve (user, destroys now id) t = destroy now user id t
serve (user, updates id input) t = update user id input t

abbrev pub serve_all : List (ℕ × Request) → List Address → List Address
serve_all [] t = t
serve_all (r ∷ rs) t = serve_all rs (serve r t)

-- The key of a new row is not in use.
abbrev pub IsFresh : ℕ × Request → List Address → Type 0
IsFresh (user, creates now id input) t = lookup id t ≡ none
IsFresh (user, makes_default id) t = Unit
IsFresh (user, destroys now id) t = Unit
IsFresh (user, updates id input) t = Unit

-- The request is no update that marks its address as a default one.
abbrev pub IsPlain : ℕ × Request → Type 0
IsPlain (user, updates id input) = input.is_default ≡ false
IsPlain (user, creates now id input) = Unit
IsPlain (user, makes_default id) = Unit
IsPlain (user, destroys now id) = Unit

abbrev pub AreFresh : List (ℕ × Request) → List Address → Type 0
AreFresh [] t = Unit
AreFresh (r ∷ rs) t = IsFresh r t × AreFresh rs (serve r t)

module _ (p : Address → Bool) (f : Address → Address)
    (keeps : (a : Address) → (f a).id ≡ a.id) where
  lookup-update_where-none :
      (j : ℕ) (t : List Address) → lookup j t ≡ none → lookup j (update_where p f t) ≡ none
  unfolding lookup update_where
  lookup-update_where-none j [] h = refl
  lookup-update_where-none j (a ∷ t) h = ground (arith, keeps a, lookup-update_where-none j t)

  update_where-Distinct : (t : List Address) → Distinct t → Distinct (update_where p f t)
  unfolding update_where
  update_where-Distinct [] d = tt
  update_where-Distinct (a ∷ t) d =
      ground (arith, keeps a, lookup-update_where-none a.id t d.0, update_where-Distinct t d.1)

module _ (j : ℕ) (f : Address → Address) (keeps : (a : Address) → (f a).id ≡ a.id) where
  lookup-update_fields-none :
      (i : ℕ) (t : List Address) → lookup i t ≡ none → lookup i (update_fields j f t) ≡ none
  unfolding lookup update_fields
  lookup-update_fields-none i [] h = refl
  lookup-update_fields-none i (a ∷ t) h = ground (arith, keeps a, lookup-update_fields-none i t)

  update_fields-Distinct : (t : List Address) → Distinct t → Distinct (update_fields j f t)
  unfolding update_fields
  update_fields-Distinct [] d = tt
  update_fields-Distinct (a ∷ t) d =
      ground (arith, keeps a, lookup-update_fields-none a.id t d.0, update_fields-Distinct t d.1)

kind_eq_sound : (k l : AddressKind) → kind_eq k l ≡ true → k ≡ l
kind_eq_sound k l e = ground arith

-- An address counts among the defaults of its own user and kind only.
same_kind :
    (u : ℕ) (k : AddressKind) (a : Address) → is_kind_of u k a ≡ true → (a.user ≡ u) × (a.kind ≡ k)
same_kind u k a h =
    let (e, f) = &&-eq_true (a.user == u) (kind_eq a.kind k) h in
    (ground arith, kind_eq_sound a.kind k f)

module _ (t : List Address) (book : IsBook t) where
  own_address-IsBook :
      (f : Address → List Address) (user id : ℕ)
      → ((a : Address) → IsStored t a → (a.user == user) ≡ true → IsBook (f a))
      → IsBook (after_get f t (own_address user id t))
  own_address-IsBook f user id h = elim (Result-cases (own_address user id t)) [
    | inl (a, e) ↦ rw e (
        let (stored, lives, fits) =
          get_one-ok (λ a. a.user == user && a.id == id) t a book.distinct e in
        h a stored (&&-eq_true (a.user == user) (a.id == id) fits).0)
    | inr (x, e) ↦ rw e book
  ]

  pub make_default-IsBook : (user id : ℕ) → IsBook (make_default user id t)
  unfolding make_default set_default
  make_default-IsBook user id =
      own_address-IsBook (λ a. set_default user a t) user id
        (λ a stored mine. record {
          distinct =
              update_fields-Distinct a.id as_default (λ b. refl) _
                (update_where-Distinct (is_kind_of user a.kind) no_default (λ b. refl) t
                  book.distinct);
          one_default = λ u k. elim (Bool-cases (is_kind_of u k a)) [
            | inl m ↦
                let (q, r) = same_kind u k a m in
                let q' : user ≡ u = ground arith in
                rw (q', r) (defaults-chosen u k a.id t book.distinct)
            | inr m ↦ omega (
              arith,
              book.one_default u k,
              defaults-other u k a.id (is_kind_of user a.kind) a t book.distinct stored m,
            )
          ];
        })

  pub destroy-IsBook : (now user id : ℕ) → IsBook (destroy now user id t)
  unfolding destroy delete_instance
  destroy-IsBook now user id =
      own_address-IsBook (λ a. delete_instance now a t) user id
        (λ a stored mine. record {
          distinct = save-Distinct (record a { deleted_at = some now }) t book.distinct;
          one_default = λ u k. omega (
            arith,
            book.one_default u k,
            defaults-hidden u k (record a { deleted_at = some now }) t refl,
          );
        })

  pub update-IsBook :
      (user id : ℕ) (input : AddressInput)
      → input.is_default ≡ false
      → IsBook (update user id input t)
  unfolding update
  update-IsBook user id input plain =
      own_address-IsBook (λ a. update_fields a.id (with_input input) t) user id
        (λ a stored mine. record {
          distinct = update_fields-Distinct a.id (with_input input) (λ b. refl) t book.distinct;
          one_default =
              λ u k. omega (arith, book.one_default u k, defaults-plain u k a.id input t plain);
        })
