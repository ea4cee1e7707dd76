-- ===== src/Reviews/Moderation.antt =====
-- What the requests of django_app/apps/reviews/views.py make of the table of reviews.
use ecommerce.Prelude.{
  ℕ, ◌≡◌, refl, inl, inr, Bool, true, false, ◌&&◌, Option, none, some, List, [], ◌∷◌, ◌++◌, ◌==◌,
  any, filter_by, arith, All, All-map, All-append, filter_by-All, filter_by-keeps-All, Bool-cases,
  &&-eq_true,
}
use ecommerce.Exec.{Result, ok, err, does_not_exist}
use ecommerce.Core.Models.{Model, alive, save, lookup, Distinct, IsStored, delete_instance}
use ecommerce.Core.Models.Rows.{save-All, IsStored-cons}
use ecommerce.Core.Models.Sorting.{order_by-All}
use ecommerce.Core.Permissions.{User, signed_in}
use ecommerce.Database.{Db, get_one}
use ecommerce.Database.Queries.{the_one-All}
use ecommerce.Reviews.{
  Review, review_model, ReviewInput, is_approved, valid_rating, is_valid, same_pair, new_review,
  with_review, newest_first, shown, created_for, create_review, updated, update_for, update_review,
  destroyed, destroy_for, destroy_review,
}

module _ {A : Type 0} where
  any-All : (q : A → Bool) (t : List A) → any q t ≡ false → All (λ a. q a ≡ false) t
  any-All q [] h = tt
  any-All q (a ∷ t) h = (ground arith, any-All q t (ground arith))

  any-append :
      (q : A → Bool) (r : A) (t : List A)
      → any q t ≡ false
      → q r ≡ false
      → any q (t ++ r ∷ []) ≡ false
  any-append q r [] h other = ground arith
  any-append q r (a ∷ t) h other = ground (arith, any-append q r t)

  both : (P Q : A → Type 0) (t : List A) → All P t → All Q t → All (λ a. P a × Q a) t
  both P Q [] h k = tt
  both P Q (a ∷ t) h k = ((h.0, k.0), both P Q t h.1 k.1)

module _ {A : Type 0} ⦃m : Model A⦄ where
  any-save :
      (q : A → Bool) (r : A) (t : List A) → any q t ≡ false → q r ≡ false → any q (save r t) ≡ false
  unfolding save
  any-save q r [] h other = refl
  any-save q r (a ∷ t) h other = ground (arith, any-save q r t)

  get_one-All :
      (P : A → Type 0) (p : A → Bool) (t : List A) (a : A) → All P t → get_one p t ≡ ok a → P a
  unfolding get_one alive
  get_one-All P p t a h e =
      the_one-All P (filter_by p (alive t)) a
        (filter_by-keeps-All P p (alive t) (filter_by-keeps-All P _ t h)) e

  all-IsStored : (t : List A) → Distinct t → All (IsStored t) t
  unfolding lookup
  all-IsStored [] d = tt
  all-IsStored (a ∷ t) d = (
    ground arith,
    All-map (IsStored t) (IsStored (a ∷ t)) (IsStored-cons a t d.0) t (all-IsStored t d.1),
  )

same_pair_sym : (a b : Review) → same_pair a b ≡ false → same_pair b a ≡ false
same_pair_sym a b h = ground arith

-- A request with its user, at a time and with the key of a new row.
pub data Request : Type 0 where
  creates : ℕ → ℕ → Option User → ReviewInput → Request
  updates : Option User → ℕ → ReviewInput → Request
  destroys : ℕ → Option User → ℕ → Request

abbrev pub serve : Db → Request → List Review → List Review
serve db (creates now id user input) t = (create_review now id db user input t).1
serve db (updates user pk input) t = (update_review db user pk input t).1
serve db (destroys now user pk) t = (destroy_review now user pk t).1

abbrev pub serve_all : Db → List Request → List Review → List Review
serve_all db [] t = t
serve_all db (r ∷ rest) t = serve_all db rest (serve db r t)

-- The review is known to the table as an approved one of the same user.
abbrev pub WasApproved : List Review → Review → Type 0
WasApproved before r =
    (a : Review) × (lookup r.id before ≡ some a) × (is_approved a ≡ true) × (a.user ≡ r.user)

-- The rating is one of 1 to 5, and no other row is of the same product and user.
abbrev pub IsReview : List Review → Review → Type 0
IsReview t r = (valid_rating r.rating ≡ true) × (any (same_pair r) t ≡ false)

module _ (before : List Review) (db : Db) where
  abbrev IsFine : List Review → Review → Type 0
  IsFine t r = IsReview t r × (is_approved r ≡ true → WasApproved before r)

  abbrev AllFine : List Review → Type 0
  AllFine t = All (IsFine t) t

  kept :
      (t t' : List Review) (r : Review)
      → ((q : Review → Bool) → any q t ≡ false → q r ≡ false → any q t' ≡ false)
      → any (same_pair r) t ≡ false
      → AllFine t
      → All (IsFine t') t
  kept t t' r step alone fine =
      All-map (λ a. IsFine t a × (same_pair r a ≡ false)) (IsFine t')
        (λ a h. ((h.0.0.0, step (same_pair a) h.0.0.1 (same_pair_sym r a h.1)), h.0.1)) t
        (both (IsFine t) (λ a. same_pair r a ≡ false) t fine (any-All (same_pair r) t alone))

  not_self : (r : Review) → same_pair r r ≡ false
  not_self r = ground arith

  save-AllFine : (t : List Review) (r : Review) → IsFine t r → AllFine t → AllFine (save r t)
  save-AllFine t r ((rating, alone), known) fine =
      save-All (IsFine (save r t)) r t
        ((rating, any-save (same_pair r) r t alone (not_self r)), known)
        (kept t (save r t) r (λ q h other. any-save q r t h other) alone fine)

  append-AllFine : (t : List Review) (r : Review) → IsFine t r → AllFine t → AllFine (t ++ r ∷ [])
  append-AllFine t r ((rating, alone), known) fine =
      All-append (IsFine (t ++ r ∷ [])) t (r ∷ [])
        (kept t (t ++ r ∷ []) r (λ q h other. any-append q r t h other) alone fine)
        (((rating, any-append (same_pair r) r t alone (not_self r)), known), tt)

  rating_valid : (input : ReviewInput) → is_valid db input ≡ true → valid_rating input.rating ≡ true
  rating_valid input e =
      (&&-eq_true (valid_rating input.rating) _
        (&&-eq_true (valid_rating input.rating && _) _ e).0).0

  create-AllFine :
      (now id : ℕ) (user : Option ℕ) (input : ReviewInput) (t : List Review)
      → AllFine t
      → AllFine (created_for now id db input user t).1
  create-AllFine now id none input t fine = fine
  create-AllFine now id (some user) input t fine =
      let r = new_review now id user input in
      elim (Bool-cases (is_valid db input)) [
        | inr e ↦ rw e fine
        | inl e ↦ elim (Bool-cases (any (same_pair r) t)) [
          | inl clash ↦ rw (e, clash) fine
          | inr alone ↦
              let rating = rating_valid input e in
              let hidden : is_approved r ≡ true → WasApproved before r =
                λ h. absurd (ground arith) in
              rw (e, alone) (append-AllFine t r ((rating, alone), hidden) fine)
        ]
      ]

  update-AllFine :
      (input : ReviewInput) (t : List Review) (found : Result Review)
      → ((r : Review) → found ≡ ok r → IsFine t r)
      → AllFine t
      → AllFine (updated db input t found).1
  update-AllFine input t (err does_not_exist) stored fine = fine
  update-AllFine input t (err e) stored fine = fine
  update-AllFine input t (ok r) stored fine = elim (Bool-cases (is_valid db input)) [
    | inr e ↦ rw e fine
    | inl e ↦ elim (Bool-cases (any (same_pair (with_review input r)) t)) [
      | inl clash ↦ rw (e, clash) fine
      | inr alone ↦
          let rating = rating_valid input e in
          let known = (stored r refl).1 in
          rw (e, alone) (save-AllFine t (with_review input r) ((rating, alone), known) fine)
    ]
  ]

  destroy-AllFine :
      (now : ℕ) (t : List Review) (found : Result Review)
      → ((r : Review) → found ≡ ok r → IsFine t r)
      → AllFine t
      → AllFine (destroyed now t found).1
  unfolding delete_instance
  destroy-AllFine now t (err does_not_exist) stored fine = fine
  destroy-AllFine now t (err e) stored fine = fine
  destroy-AllFine now t (ok r) stored fine =
      save-AllFine t (record r { deleted_at = some now }) (stored r refl) fine

  found-IsFine :
      (pk : ℕ) (t : List Review)
      → AllFine t
      → (r : Review) → get_one (λ a. a.id == pk) t ≡ ok r
      → IsFine t r
  found-IsFine pk t fine r e = get_one-All (IsFine t) (λ a. a.id == pk) t r fine e

  update_for-AllFine :
      (pk : ℕ) (input : ReviewInput) (user : Option ℕ) (t : List Review)
      → AllFine t
      → AllFine (update_for db pk input user t).1
  update_for-AllFine pk input none t fine = fine
  update_for-AllFine pk input (some user) t fine =
      update-AllFine input t (get_one (λ r. r.id == pk) t) (found-IsFine pk t fine) fine

  destroy_for-AllFine :
      (now pk : ℕ) (user : Option ℕ) (t : List Review)
      → AllFine t
      → AllFine (destroy_for now pk user t).1
  destroy_for-AllFine now pk none t fine = fine
  destroy_for-AllFine now pk (some user) t fine =
      destroy-AllFine now t (get_one (λ r. r.id == pk) t) (found-IsFine pk t fine) fine

  serve-AllFine : (q : Request) (t : List Review) → AllFine t → AllFine (serve db q t)
  unfolding create_review update_review destroy_review
  serve-AllFine (creates now id user input) t fine =
      create-AllFine now id (signed_in user) input t fine
  serve-AllFine (updates user pk input) t fine = update_for-AllFine pk input (signed_in user) t fine
  serve-AllFine (destroys now user pk) t fine = destroy_for-AllFine now pk (signed_in user) t fine

  serve_all-AllFine :
      (qs : List Request) (t : List Review) → AllFine t → AllFine (serve_all db qs t)
  serve_all-AllFine [] t fine = fine
  serve_all-AllFine (q ∷ qs) t fine = serve_all-AllFine qs (serve db q t) (serve-AllFine q t fine)

  -- No two reviews of the table have one key, every rating is one of 1 to 5, and no user has two
  -- reviews of one product. Then after any requests, of anyone and in any
  -- order, the same holds of every row, hidden ones included; and whatever is shown has the key and
  -- the user of a review that had been approved before: no request publishes a review.
  pub serve_all-IsReview :
      (qs : List Request)
      → Distinct before
      → All (IsReview before) before
      → let t = serve_all db qs before in All (IsReview t) t × All (WasApproved before) (shown t)
  unfolding shown alive
  serve_all-IsReview qs distinct reviews =
      let start : AllFine before =
        All-map _ (IsFine before) (λ r h. (h.0, (λ yes. (r, h.1, yes, refl)))) before
          (both (IsReview before) (IsStored before) before reviews
            (all-IsStored before distinct)) in
      let t = serve_all db qs before in
      let fine = serve_all-AllFine qs before start in
      let rows = filter_by is_approved (alive t) in
      (
        All-map (IsFine t) (IsReview t) (λ r h. h.0) t fine,
        order_by-All (WasApproved before) newest_first rows (
            All-map _ (WasApproved before) (λ r h. h.0.1 h.1) rows
              (both (IsFine t) (λ r. is_approved r ≡ true) rows
                (filter_by-keeps-All (IsFine t) is_approved (alive t)
                  (filter_by-keeps-All (IsFine t) _ t fine))
                (filter_by-All is_approved (alive t)))),
      )
