-- ===== src/Users.antt =====
-- django_app/apps/users: accounts and roles of models.py, the registration of serializers.py with the
-- wishlist of signals.py, and the roles that seed_roles.py writes. The hash of a password and the
-- spelling of an e-mail address that Django stores are parameters, the keys of new rows are arguments.
pub mod Addresses
pub mod Defaults
pub mod Book
pub mod Updating
pub mod Creating
pub mod Registering
pub mod Tokens
pub mod Seeding
pub mod Reseeding
use text.Mathlib.Text.{◌==◌ as str_eq}
use ecommerce.Prelude.{
  ℕ, suc, refl, Bool, true, false, not, ◌&&◌, Option, none, some, String, List, [], ◌∷◌, ◌++◌, ◌==◌,
  if◌then◌else◌, filter_by, any, map,
}
use ecommerce.Exec.{
  Exec, Result, ok, err, Error, value_error, integrity_error, does_not_exist, multiple_objects,
  pure, modify, raise_if, raise, ◌>>=◌, ◌>>◌,
}
use ecommerce.Core.Models.{Model, alive, save}
use ecommerce.Core.Permissions.{User}
use ecommerce.Database.{get_one, get_or_create}

pub record Role : Type 0 where
  pub id : ℕ
  pub code : String
  pub name : String
  pub description : String
  pub is_system : Bool
  pub deleted_at : Option ℕ

pub record Account : Type 0 where
  pub id : ℕ
  pub email : String
  pub password : String
  pub first_name : String
  pub last_name : String
  pub phone : String
  pub is_active : Bool
  pub is_staff : Bool
  pub is_superuser : Bool
  pub deleted_at : Option ℕ

pub record Wishlist : Type 0 where
  pub id : ℕ
  pub user : ℕ
  pub deleted_at : Option ℕ

-- `users_user_roles` is a list of pairs of keys.
pub record Accounts : Type 0 where
  pub users : List Account
  pub roles : List Role
  pub user_roles : List (ℕ × ℕ)
  pub wishlists : List Wishlist

instance abbrev pub role_model : Model Role
role_model = record {
  pk = λ r. r.id;
  deleted_at = λ r. r.deleted_at;
  set_deleted_at = λ d r. record r { deleted_at = d };
  pk-set = λ d r. refl;
  deleted_at-set = λ d r. refl;
  set-set = λ d e r. refl;
  set_self = λ r. refl;
}

instance abbrev pub wishlist_model : Model Wishlist
wishlist_model = record {
  pk = λ w. w.id;
  deleted_at = λ w. w.deleted_at;
  set_deleted_at = λ d w. record w { deleted_at = d };
  pk-set = λ d w. refl;
  deleted_at-set = λ d w. refl;
  set-set = λ d e w. refl;
  set_self = λ w. refl;
}

-- The keyword arguments of the manager, `none` where one is missing.
pub record Extra : Type 0 where
  pub first_name : String
  pub last_name : String
  pub phone : String
  pub is_active : Option Bool
  pub is_staff : Option Bool
  pub is_superuser : Option Bool

-- `extra.setdefault(…)`, and then the value.
abbrev pub setdefault : Option Bool → Bool → Bool
setdefault none d = d
setdefault (some b) d = b

abbrev pub wishlist_of : ℕ → ℕ → Wishlist
wishlist_of id user = record { id = id; user = user; deleted_at = none }

-- The signal of a new user.
unfoldable pub create_wishlist : ℕ → ℕ → Exec Accounts Wishlist
create_wishlist id user acc =
    let is_of = λ (w : Wishlist). w.user == user in
    let (r, t) = get_or_create is_of is_of (wishlist_of id user) acc.wishlists in
    (r, record acc { wishlists = t })

abbrev pub is_taken : String → List Account → Bool
is_taken email users = any (λ u. str_eq u.email email) users

-- The INSERT of `user.save()`; the unique address counts hidden users.
unfoldable pub insert_user : Account → Exec Accounts (Unit {0})
insert_user u acc =
    if is_taken u.email acc.users
    then (err integrity_error, acc)
    else (ok tt, record acc { users = acc.users ++ u ∷ [] })

-- The fields that a registration may name.
pub record Registration : Type 0 where
  pub email : String
  pub password : String
  pub first_name : String
  pub last_name : String
  pub phone : String

abbrev pub extra_of : Registration → Extra
extra_of r = record {
  first_name = r.first_name;
  last_name = r.last_name;
  phone = r.phone;
  is_active = none;
  is_staff = none;
  is_superuser = none;
}

abbrev pub is_customer : Role → Bool
is_customer r = str_eq r.code "customer"

-- `user.roles.add(…)`, which adds no pair twice.
abbrev pub add_role : ℕ → ℕ → List (ℕ × ℕ) → List (ℕ × ℕ)
add_role user role pairs =
    if any (λ p. p.0 == user && p.1 == role) pairs then pairs else pairs ++ (user, role) ∷ []

-- The role of a customer, if there is one.
abbrev pub with_customer : ℕ → Result Role → Exec Accounts (Unit {0})
with_customer user (ok role) acc =
    (ok tt, record acc { user_roles = add_role user role.id acc.user_roles })
with_customer user (err does_not_exist) acc = (ok tt, acc)
with_customer user (err e) acc = (err e, acc)

-- Keys for the rows that a new user brings along.
pub record Keys : Type 0 where
  pub user : ℕ
  pub wishlist : ℕ

module _ (normalize_email make_password : String → String) where
  abbrev pub new_user : ℕ → String → String → Extra → Bool → Bool → Account
  new_user id email password extra is_staff is_superuser = record {
    id = id;
    email = normalize_email email;
    password = make_password password;
    first_name = extra.first_name;
    last_name = extra.last_name;
    phone = extra.phone;
    is_active = setdefault extra.is_active true;
    is_staff = is_staff;
    is_superuser = is_superuser;
    deleted_at = none;
  }

  -- `UserManager._create_user`, with the flags that its callers have set.
  unfoldable pub create_with : Keys → String → String → Extra → Bool → Bool → Exec Accounts Account
  unfolding insert_user create_wishlist
  create_with keys email password extra is_staff is_superuser = do
    raise_if (str_eq email "") value_error
    insert_user (new_user keys.user email password extra is_staff is_superuser)
    create_wishlist keys.wishlist keys.user
    pure (new_user keys.user email password extra is_staff is_superuser)

  unfoldable pub create_user : Keys → String → String → Extra → Exec Accounts Account
  unfolding create_with
  create_user keys email password extra =
      create_with keys email password extra (setdefault extra.is_staff false)
        (setdefault extra.is_superuser false)

  unfoldable pub create_superuser : Keys → String → String → Extra → Exec Accounts Account
  unfolding create_with
  create_superuser keys email password extra = do
    raise_if (not (setdefault extra.is_staff true)) value_error
    raise_if (not (setdefault extra.is_superuser true)) value_error
    create_with keys email password extra true true

  -- `RegisterSerializer.create`
  unfoldable pub register : Keys → Registration → Exec Accounts Account
  unfolding create_user
  register keys r = do
    user ← create_user keys r.email r.password (extra_of r)
    (λ acc. with_customer user.id (get_one is_customer acc.roles) acc)
    pure user

-- The living roles of a user, `user.roles.all()`.
unfoldable pub roles_of : Accounts → ℕ → List Role
roles_of acc user =
    filter_by (λ r. any (λ p. p.0 == user && p.1 == r.id) acc.user_roles) (alive acc.roles)

unfoldable pub has_role : Accounts → ℕ → String → Bool
unfolding roles_of
has_role acc user code = any (λ r. str_eq r.code code) (roles_of acc user)

abbrev pub code_of_role : Role → String
code_of_role r = r.code

-- `list(user.roles.values_list("code", flat=True))`
unfoldable pub codes_of : Accounts → ℕ → List String
unfolding roles_of
codes_of acc user = map code_of_role (roles_of acc user)

-- What the permissions of the API read of a user who is signed in.
abbrev pub as_user : Accounts → Account → User
as_user acc u = record {
  id = u.id;
  email = u.email;
  is_authenticated = true;
  is_staff = u.is_staff;
  is_superuser = u.is_superuser;
  roles = codes_of acc u.id;
}
