-- ===== src/Core/Permissions.antt =====
-- django_app/apps/core/permissions.py, over the users of django_app/apps/users/models.py. An
-- anonymous user is one with `is_authenticated` false. Role codes are compared as text.
use text.Mathlib.Text.{◌==◌ as str_eq}
use ecommerce.Prelude.{
  ℕ, ◌==◌, ◌||◌, Bool, true, false, not, Option, none, some, String, List, [], ◌∷◌, if◌then◌else◌,
  any,
}

pub record User : Type 0 where
  pub id : ℕ
  pub email : String
  pub is_authenticated : Bool
  pub is_staff : Bool
  pub is_superuser : Bool
  pub roles : List String

-- `user and user.is_authenticated`, as the key of the user
abbrev pub signed_in : Option User → Option ℕ
signed_in none = none
signed_in (some u) = if u.is_authenticated then some u.id else none

abbrev pub has_any : List String → List String → Bool
has_any required roles = any (λ r. any (λ code. str_eq code r) roles) required

-- `HasRole.has_permission` for the roles that a subclass requires
unfoldable pub has_permission : List String → Option User → Bool
has_permission required none = false
has_permission required (some user) =
    if not user.is_authenticated
    then false
    else if user.is_superuser
    then true
    else has_any required user.roles

abbrev pub is_customer_roles : List String
is_customer_roles = "customer" ∷ []

abbrev pub is_staff_roles : List String
is_staff_roles = "staff" ∷ "admin" ∷ []

abbrev pub is_admin_roles : List String
is_admin_roles = "admin" ∷ []

abbrev pub is_vendor_roles : List String
is_vendor_roles = "vendor" ∷ []

abbrev pub owned_by : ℕ → Option ℕ → Bool
owned_by id none = false
owned_by id (some owner) = owner == id

-- `IsOwnerOrStaff.has_object_permission`, on the owner's key
unfoldable pub has_object_permission : Option User → Option ℕ → Bool
has_object_permission none owner = false
has_object_permission (some user) owner =
    if not user.is_authenticated
    then false
    else if user.is_superuser || user.is_staff
    then true
    else owned_by user.id owner
