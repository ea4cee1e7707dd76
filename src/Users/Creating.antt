-- ===== src/Users/Creating.antt =====
-- The making of users and superusers by the manager of django_app/apps/users/models.py.
use text.Mathlib.Text.{◌==◌ as str_eq}
use ecommerce.Prelude.{
  ℕ, ◌≡◌, ◌⊎◌, refl, ◌∙◌, inl, inr, Bool, true, false, not, ◌&&◌, String, List, [], ◌∷◌, ◌++◌,
  arith, ◌==◌, if◌then◌else◌, filter_by, any, Bool-cases,
}
use ecommerce.Exec.{
  Exec, Result, ok, err, Error, value_error, integrity_error, does_not_exist, multiple_objects,
  is_ok, Outcome, ◌>>◌, pure, bind_ok, bind_err,
}
use ecommerce.Core.Models.{alive}
use ecommerce.Database.{the_one, get_or_create}
use ecommerce.Users.{
  Role, role_model, Account, Accounts, Wishlist, wishlist_model, wishlist_of, Extra, Keys,
  setdefault, is_taken, add_role, create_wishlist, insert_user, new_user, create_with,
  create_superuser,
}

module _ (p : Wishlist → Bool) where
  filter-any-false : (t : List Wishlist) → any p t ≡ false → filter_by p (alive t) ≡ []
  unfolding alive
  filter-any-false [] h = refl
  filter-any-false (w ∷ t) h = ground (arith, filter-any-false t)

pub the_one-only : (rows : List Role) (a : Role) → the_one rows ≡ ok a → rows ≡ a ∷ []
the_one-only [] a h = cc
the_one-only (b ∷ []) a h = let e : b ≡ a = grind arith in rw e refl
the_one-only (b ∷ c ∷ rest) a h = cc

pub the_one-err :
    (rows : List Role) (e : Error)
    → the_one rows ≡ err e
    → (e ≡ does_not_exist) ⊎ (e ≡ multiple_objects)
the_one-err [] e h = inl (grind arith)
the_one-err (b ∷ []) e h = cc
the_one-err (b ∷ c ∷ rest) e h = inr (grind arith)

any-append :
    (p : ℕ × ℕ → Bool) (a : ℕ × ℕ) (xs : List (ℕ × ℕ)) → p a ≡ true → any p (xs ++ a ∷ []) ≡ true
any-append p a [] h = ground arith
any-append p a (x ∷ xs) h = ground (arith, any-append p a xs h)

pub add_role-any :
    (user role : ℕ) (pairs : List (ℕ × ℕ))
    → any (λ p. p.0 == user && p.1 == role) (add_role user role pairs) ≡ true
add_role-any user role pairs = elim (Bool-cases (any (λ p. p.0 == user && p.1 == role) pairs)) [
  | inl e ↦ rw (e, e) refl
  | inr e ↦ rw e (any-append (λ p. p.0 == user && p.1 == role) (user, role) pairs (ground arith))
]

pub any-filter :
    (p g : Role → Bool) (a : Role) (xs : List Role)
    → filter_by p xs ≡ a ∷ []
    → g a ≡ true
    → any p (filter_by g xs) ≡ true
any-filter p g a [] h k = cc
any-filter p g a (b ∷ xs) h k = elim (Bool-cases (p b)) [
  | inl e ↦ let here : b ≡ a = grind arith in let kept : g b ≡ true = rw here k in rw (kept, e) refl
  | inr e ↦ ground (arith, any-filter p g a xs)
]

-- The new row of a user without a wishlist.
create_wishlist-new :
    (id user : ℕ) (acc : Accounts)
    → any (λ (w : Wishlist). w.user == user) acc.wishlists ≡ false
    → create_wishlist id user acc ≡ (
      ok (wishlist_of id user),
      record acc { wishlists = acc.wishlists ++ wishlist_of id user ∷ [] },
    )
unfolding create_wishlist get_or_create
create_wishlist-new id user acc h =
    rw (filter-any-false (λ w. w.user == user) acc.wishlists h, h) refl

insert_user-cases :
    (u : Account) (acc : Accounts)
    → (is_taken u.email acc.users ≡ true → insert_user u acc ≡ (err integrity_error, acc))
      × (is_taken u.email acc.users ≡ false
          → insert_user u acc ≡ (ok tt, record acc { users = acc.users ++ u ∷ [] }))
unfolding insert_user
insert_user-cases u acc = ((λ h. rw h refl), (λ h. rw h refl))

abbrev pub joined : Keys → Account → Accounts → Accounts
joined keys u acc = record acc {
  users = acc.users ++ u ∷ [];
  wishlists = acc.wishlists ++ wishlist_of keys.wishlist keys.user ∷ [];
}

-- A call that passes four guards, or raises at one of them.
guarded :
    (P : Accounts → Type 0) (acc acc' : Accounts) (u : Account) (a b c d : Bool)
    → P acc'
    → let p : Result Account × Accounts =
        if not a
        then (err value_error, acc)
        else if not b
        then (err value_error, acc)
        else if c
        then (err value_error, acc)
        else if d
        then (err integrity_error, acc)
        else (ok u, acc') in
      (is_ok p.0 ≡ (a && (b && (not c && not d)))) × Outcome acc P p
guarded P acc acc' u false b c d h = (refl, refl)
guarded P acc acc' u true false c d h = (refl, refl)
guarded P acc acc' u true true true d h = (refl, refl)
guarded P acc acc' u true true false true h = (refl, refl)
guarded P acc acc' u true true false false h = (refl, h)

module _ (normalize_email make_password : String → String) (keys : Keys) (acc : Accounts)
    (fresh : any (λ (w : Wishlist). w.user == keys.user) acc.wishlists ≡ false)
    (email password : String) (extra : Extra) where
  -- `_create_user` in all its branches.
  pub create_with-cases :
      (is_staff is_superuser : Bool)
      → let u =
          new_user normalize_email make_password keys.user email password extra is_staff
            is_superuser in
        create_with normalize_email make_password keys email password extra is_staff is_superuser
          acc
        ≡ (if str_eq email ""
            then (err value_error, acc)
            else if is_taken u.email acc.users
            then (err integrity_error, acc)
            else (ok u, joined keys u acc))
  unfolding create_with
  create_with-cases is_staff is_superuser =
      let u =
        new_user normalize_email make_password keys.user email password extra is_staff
          is_superuser in
      let acc' : Accounts = record acc { users = acc.users ++ u ∷ [] } in
      let last : Exec Accounts Account = pure u in
      let wish : Exec Accounts Account = create_wishlist keys.wishlist keys.user >> last in
      elim (Bool-cases (str_eq email "")) [
        | inl e ↦ rw e refl
        | inr e ↦ elim (Bool-cases (is_taken u.email acc.users)) [
          | inl f ↦ rw e (
              bind_err (insert_user u) (λ _. wish) acc acc integrity_error
                ((insert_user-cases u acc).0 f)
              ∙ rw f refl)
          | inr f ↦ rw e (
              bind_ok (insert_user u) (λ _. wish) acc acc' tt ((insert_user-cases u acc).1 f)
              ∙ bind_ok (create_wishlist keys.wishlist keys.user) (λ _. last) acc'
                  (joined keys u acc) (wishlist_of keys.wishlist keys.user)
                  (create_wishlist-new keys.wishlist keys.user acc' fresh)
              ∙ rw f refl)
        ]
      ]

  superuser-cases :
      let u = new_user normalize_email make_password keys.user email password extra true true in
      create_superuser normalize_email make_password keys email password extra acc ≡ (
        if not (setdefault extra.is_staff true)
        then (err value_error, acc)
        else if not (setdefault extra.is_superuser true)
        then (err value_error, acc)
        else if str_eq email ""
        then (err value_error, acc)
        else if is_taken u.email acc.users
        then (err integrity_error, acc)
        else (ok u, joined keys u acc))
  unfolding create_superuser
  superuser-cases = elim (Bool-cases (setdefault extra.is_staff true)) [
    | inr e ↦ rw e refl
    | inl e ↦ elim (Bool-cases (setdefault extra.is_superuser true)) [
      | inr f ↦ rw (e, f) refl
      | inl f ↦ rw (e, f) (create_with-cases true true)
    ]
  ]

  -- A user without a wishlist is made a superuser: the call returns exactly when neither flag is
  -- turned off, the address is not empty and, in its stored spelling, no user has it. The one new user
  -- is then staff and superuser and has a wishlist. A call that raises changes nothing.
  pub create_superuser_lem :
      let p = create_superuser normalize_email make_password keys email password extra acc in
      (is_ok p.0 ≡ (
        setdefault extra.is_staff true
        && (setdefault extra.is_superuser true
            && (not (str_eq email "") && not (is_taken (normalize_email email) acc.users)))))
      × Outcome acc
          (λ s.
            (u : Account) × (s ≡ joined keys u acc)
            × (u.email ≡ normalize_email email)
            × (u.is_staff ≡ true)
            × (u.is_superuser ≡ true))
          p
  create_superuser_lem =
      let u : Account =
        new_user normalize_email make_password keys.user email password extra true true in
      rw superuser-cases (
        guarded _ acc (joined keys u acc) u (setdefault extra.is_staff true)
          (setdefault extra.is_superuser true) (str_eq email "") (is_taken u.email acc.users)
          (u, refl, refl, refl, refl))
