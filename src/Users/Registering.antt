-- ===== src/Users/Registering.antt =====
-- What a registration and the making of a superuser leave behind: django_app/apps/users/models.py,
-- serializers.py and signals.py.
use text.Mathlib.Text.{◌==◌ as str_eq}
use ecommerce.Prelude.{
  ℕ, ◌≡◌, ◌≢◌, refl, ◌∙◌, inl, inr, true, false, ◌&&◌, String, List, [], ◌∷◌, ◌++◌, arith, ◌==◌,
  if◌then◌else◌, filter_by, any, Bool-cases,
}
use ecommerce.Exec.{
  Exec, ok, err, value_error, integrity_error, does_not_exist, multiple_objects, Outcome, ◌>>◌,
  pure, bind_ok, bind_err,
}
use ecommerce.Core.Models.{alive}
use ecommerce.Database.{get_one}
use ecommerce.Database.Queries.{Result-cases}
use ecommerce.Users.{
  Role, role_model, Account, Accounts, Wishlist, wishlist_model, wishlist_of, Registration, Keys,
  extra_of, is_taken, is_customer, add_role, with_customer, new_user, create_user, register,
  roles_of, has_role,
}
use ecommerce.Users.Creating.{
  joined, create_with-cases, the_one-err, the_one-only, any-filter, add_role-any,
}

module _ (normalize_email make_password : String → String) (keys : Keys) (acc : Accounts)
    (fresh : any (λ (w : Wishlist). w.user == keys.user) acc.wishlists ≡ false)
    (r : Registration) where
  -- What a registration leaves behind.
  pub record Registered (acc' : Accounts) : Type 0 where
    pub user : Account
    pub users : acc'.users ≡ acc.users ++ user ∷ []
    pub wishlists : acc'.wishlists ≡ acc.wishlists ++ wishlist_of keys.wishlist user.id ∷ []
    pub roles : acc'.roles ≡ acc.roles
    pub email : user.email ≡ normalize_email r.email
    pub free : is_taken user.email acc.users ≡ false
    pub plain : (user.is_active ≡ true) × (user.is_staff ≡ false) × (user.is_superuser ≡ false)
    pub customer :
        (role : Role)
        → get_one is_customer acc.roles ≡ ok role
        → has_role acc' user.id "customer" ≡ true

  joined-Registered :
      let u =
        new_user normalize_email make_password keys.user r.email r.password
          (extra_of r)
          false
          false in
      (pairs : List (ℕ × ℕ))
      → is_taken u.email acc.users ≡ false
      → ((role : Role)
          → get_one is_customer acc.roles ≡ ok role
          → any (λ p. p.0 == keys.user && p.1 == role.id) pairs ≡ true)
      → Registered (record (joined keys u acc) { user_roles = pairs })
  unfolding has_role roles_of get_one
  joined-Registered pairs free h = record {
    user =
        new_user normalize_email make_password keys.user r.email r.password (extra_of r) false
          false;
    users = refl;
    wishlists = refl;
    roles = refl;
    email = refl;
    free = free;
    plain = (refl, refl, refl);
    customer = λ role e.
        any-filter is_customer (λ s. any (λ p. p.0 == keys.user && p.1 == s.id) pairs) role
          (alive acc.roles) (the_one-only (filter_by is_customer (alive acc.roles)) role e)
          (h role e);
  }

  created :
      let u =
        new_user normalize_email make_password keys.user r.email r.password
          (extra_of r)
          false
          false in
      create_user normalize_email make_password keys r.email r.password (extra_of r) acc ≡ (
        if str_eq r.email ""
        then (err value_error, acc)
        else if is_taken u.email acc.users
        then (err integrity_error, acc)
        else (ok u, joined keys u acc))
  unfolding create_user
  created =
      create_with-cases normalize_email make_password keys acc fresh r.email r.password (extra_of r)
        false false

  -- A user without a wishlist registers, and at most one role is that of a customer. A registration
  -- that raises changes nothing. One that returns adds one user with a new address, who is active and
  -- neither staff nor superuser, with a wishlist, and with the role of a customer if there is one.
  pub register-Registered :
      get_one is_customer acc.roles ≢ err multiple_objects
      → Outcome acc Registered (register normalize_email make_password keys r acc)
  unfolding register get_one
  register-Registered single = elim (Bool-cases (str_eq r.email "")) [
    | inl e ↦ rw (bind_err create finish acc acc value_error (made ∙ rw e refl)) refl
    | inr e ↦ elim (Bool-cases (is_taken u.email acc.users)) [
      | inl f ↦ rw (bind_err create finish acc acc integrity_error (made ∙ rw (e, f) refl)) refl
      | inr f ↦ rw (bind_ok create finish acc acc' u (made ∙ rw (e, f) refl)) (finished f)
    ]
  ]
    where
      u : Account
      u =
          new_user normalize_email make_password keys.user r.email r.password (extra_of r) false
            false

      acc' : Accounts
      acc' = joined keys u acc

      create : Exec Accounts Account
      create = create_user normalize_email make_password keys r.email r.password (extra_of r)

      give : Account → Exec Accounts (Unit {0})
      give user s = with_customer user.id (get_one is_customer s.roles) s

      finish : Account → Exec Accounts Account
      finish user = give user >> pure user

      made : create acc ≡ (
          if str_eq r.email ""
          then (err value_error, acc)
          else if is_taken u.email acc.users
          then (err integrity_error, acc)
          else (ok u, acc'))
      made = created

      given :
          (pairs : List (ℕ × ℕ))
          → give u acc' ≡ (ok tt, record acc' { user_roles = pairs })
          → Registered (record acc' { user_roles = pairs })
          → Outcome acc Registered (finish u acc')
      given pairs e h =
          rw (bind_ok (give u) (λ _. pure u) acc' (record acc' { user_roles = pairs }) tt e) h

      finished : is_taken u.email acc.users ≡ false → Outcome acc Registered (finish u acc')
      finished free = elim (Result-cases (get_one is_customer acc.roles)) [
        | inl (role, g) ↦ given (add_role keys.user role.id acc.user_roles) (rw g refl) (
            joined-Registered (add_role keys.user role.id acc.user_roles) free (λ other g'.
              (let same : role ≡ other = grind arith in
                rw⁻¹ same (add_role-any keys.user role.id acc.user_roles))))
        | inr (e, g) ↦ elim (the_one-err (filter_by is_customer (alive acc.roles)) e g) [
          | inl none_there ↦
              let g' : get_one is_customer acc.roles ≡ err does_not_exist = rw none_there at g in
              given acc.user_roles (rw g' refl) (
                joined-Registered acc.user_roles free
                  (λ other g''. absurd (ground (arith, g', g''))))
          | inr several ↦ absurd (single (rw several at g))
        ]
      ]
