-- ===== src/Database/Queries.antt =====
-- What a query that returns tells of its row.
use ecommerce.Prelude.{
  ℕ, ◌≡◌, refl, ◌⊎◌, inl, inr, Bool, true, ◌&&◌, none, some, List, [], ◌∷◌, ◌==◌, arith, All,
  filter_by, filter_by-All, filter_by-filter_by, Bool-cases, &&-eq_true,
}
use ecommerce.Exec.{Result, ok, err, Error}
use ecommerce.Core.Models.{Model, alive, is_alive, lookup, Distinct, IsStored}
use ecommerce.Core.Models.Rows.{filter-IsStored}
use ecommerce.Database.{the_one, get_one}

pub Result-cases :
    {A : Type 0} (r : Result A) → ((a : A) × (r ≡ ok a)) ⊎ ((e : Error) × (r ≡ err e))
Result-cases (ok a) = inl (a, refl)
Result-cases (err e) = inr (e, refl)

pub the_one-All :
    {A : Type 0} (P : A → Type 0) (rows : List A) (a : A) → All P rows → the_one rows ≡ ok a → P a
the_one-All P [] a h e = cc
the_one-All P (b ∷ []) a h e = grind arith
the_one-All P (b ∷ c ∷ rest) a h e = cc

module _ {A : Type 0} ⦃m : Model A⦄ (p : A → Bool) (t : List A) (a : A) where
  -- The row that `get` returns is in the table, is alive and satisfies the query.
  pub get_one-ok :
      Distinct t → get_one p t ≡ ok a → IsStored t a × (is_alive a ≡ true) × (p a ≡ true)
  unfolding get_one alive
  get_one-ok distinct e =
      let q = λ (x : A). is_alive x && p x in
      let e' : the_one (filter_by q t) ≡ ok a = rw (filter_by-filter_by is_alive p t) at e in
      let passed = the_one-All (λ x. q x ≡ true) (filter_by q t) a (filter_by-All q t) e' in
      let (lives, fits) = &&-eq_true (is_alive a) (p a) passed in
      (the_one-All (IsStored t) (filter_by q t) a (filter-IsStored q t distinct) e', lives, fits)

module _ {A : Type 0} ⦃m : Model A⦄ (k : ℕ) where
  filter_key_none : (t : List A) → lookup k t ≡ none → filter_by (λ a. m.pk a == k) (alive t) ≡ []
  unfolding lookup alive
  filter_key_none [] h = refl
  filter_key_none (a ∷ t) h = ground (arith, filter_key_none t)

  -- A living row is found by its key.
  pub get_one-key :
      (t : List A) (a : A)
      → Distinct t
      → lookup k t ≡ some a
      → is_alive a ≡ true
      → get_one (λ a. m.pk a == k) t ≡ ok a
  unfolding get_one lookup alive
  get_one-key [] a distinct there lives = cc
  get_one-key (b ∷ t) a distinct there lives = elim (Bool-cases (m.pk b == k)) [
    | inl e ↦
        let p : m.pk b ≡ k = ground arith in
        let here : b ≡ a = ground arith in
        let rest = filter_key_none t (rw p at distinct.0) in ground (arith, rest)
    | inr e ↦ ground (arith, get_one-key t a distinct.1)
  ]
