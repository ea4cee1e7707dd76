-- ===== src/Users/Seeding.antt =====
-- django_app/apps/users/management/commands/seed_roles.py: the roles of the system, and why the
-- command may run again. The keys of new rows are counted from a number on.
use text.Mathlib.Text.{◌==◌ as str_eq}
use ecommerce.Prelude.{
  ℕ, suc, Bool, true, ◌&&◌, none, String, List, [], ◌∷◌, ◌++◌, if◌then◌else◌, filter_by, any,
}
use ecommerce.Exec.{Exec, Result, ok, err, integrity_error, multiple_objects, pure, ◌>>◌}
use ecommerce.Core.Models.{is_alive, save}
use ecommerce.Users.{Role, role_model}

-- An entry of `SYSTEM_ROLES`.
pub record Seed : Type 0 where
  pub code : String
  pub name : String
  pub description : String

abbrev pub system_roles : List Seed
system_roles =
    record {
      code = "customer";
      name = "Customer";
      description = "End-user shopping on the storefront.";
    }
    ∷ record { code = "vendor"; name = "Vendor"; description = "Multi-vendor seller account." }
    ∷ record { code = "staff"; name = "Staff"; description = "Internal operations team member." }
    ∷ record { code = "admin"; name = "Administrator"; description = "Full administrative access." }
    ∷ record { code = "support"; name = "Support"; description = "Customer-support agent." }
    ∷ []

abbrev pub has_code : String → Role → Bool
has_code c r = str_eq r.code c

abbrev pub lives_as : String → Role → Bool
lives_as c r = is_alive r && str_eq r.code c

abbrev pub seed_role : ℕ → Seed → Role
seed_role id s = record {
  id = id;
  code = s.code;
  name = s.name;
  description = s.description;
  is_system = true;
  deleted_at = none;
}

abbrev pub reseeded : Seed → Role → Role
reseeded s r = record r { name = s.name; description = s.description; is_system = true }

-- `Role.objects.update_or_create(code=…, defaults=…)`, by the living rows with the code. The unique
-- code counts hidden rows.
abbrev pub upsert : ℕ → Seed → List Role → List Role → Result Role × List Role
upsert id s t [] =
    if any (has_code s.code) t
    then (err integrity_error, t)
    else (ok (seed_role id s), t ++ seed_role id s ∷ [])
upsert id s t (r ∷ []) = (ok (reseeded s r), save (reseeded s r) t)
upsert id s t (r ∷ r' ∷ rest) = (err multiple_objects, t)

unfoldable pub update_or_create : ℕ → Seed → Exec (List Role) Role
update_or_create id s t = upsert id s t (filter_by (lives_as s.code) t)

unfoldable pub seed_all : ℕ → List Seed → Exec (List Role) (Unit {0})
unfolding update_or_create
seed_all n [] = pure tt
seed_all n (s ∷ rest) = update_or_create n s >> seed_all (suc n) rest

-- `Command.handle`
unfoldable pub handle : ℕ → Exec (List Role) (Unit {0})
unfolding seed_all
handle n = seed_all n system_roles
