-- ===== src/Tests/Accounts.antt =====
-- The theorems on accounts, roles and address books, at concrete inputs.
use ecommerce.Prelude.{
  ℕ, ◌≡◌, ◌↔◌, refl, inl, inr, true, false, ◌||◌, none, some, String, List, [], ◌∷◌, arith, All,
}
use ecommerce.Exec.{ok, Outcome}
use ecommerce.Core.Permissions.{has_permission, is_staff_roles, has_any}
use ecommerce.Gateway.Security.{
  Decoding, claims, TokenUser, get_current_user, passed, require_staff,
}
use ecommerce.Users.{
  Role, Account, Accounts, Extra, Registration, Keys, create_superuser, register, codes_of, as_user,
}
use ecommerce.Users.Addresses.{shipping, AddressInput, Address, update}
use ecommerce.Users.Book.{Request, creates, makes_default, destroys, updates}
use ecommerce.Users.Registering.{Registered, register-Registered}
use ecommerce.Users.Tokens.{get_token, get_current_user-get_token}
use ecommerce.Users.Seeding.{system_roles, handle}
use ecommerce.Users.Reseeding.{IsSeeded, handle-handle}

abbrev customer : Role
customer = record {
  id = 1;
  code = "customer";
  name = "Buyer";
  description = "";
  is_system = false;
  deleted_at = none;
}

abbrev account : Account
account = record {
  id = 9;
  email = "a@b.c";
  password = "x";
  first_name = "";
  last_name = "";
  phone = "";
  is_active = true;
  is_staff = false;
  is_superuser = false;
  deleted_at = none;
}

abbrev accounts : Accounts
accounts = record {
  users = account ∷ [];
  roles = customer ∷ [];
  user_roles = (9, 1) ∷ [];
  wishlists = [];
}

abbrev registration : Registration
registration = record {
  email = "n@b.c";
  password = "y";
  first_name = "";
  last_name = "";
  phone = "";
}

abbrev keys : Keys
keys = record { user = 10; wishlist = 20 }

abbrev unchanged : String → String
unchanged s = s

register-Registered_example :
    Outcome accounts
      (Registered unchanged unchanged keys accounts refl registration)
      (register unchanged unchanged keys registration accounts)
unfolding ecommerce.Database.get_one ecommerce.Core.Models.alive
register-Registered_example =
    register-Registered unchanged unchanged keys accounts refl registration (λ e. ground arith)

abbrev decoding : String → Decoding
decoding token = claims (get_token (λ k. "9") accounts account)

get_current_user-get_token_example :
    (t : TokenUser) × (get_current_user decoding (λ h. some "t") (some "Bearer t") ≡ passed t)
    × ((t.id ≡ "9") × (t.email ≡ "a@b.c") × (t.roles ≡ codes_of accounts 9))
    × ((require_staff t ≡ passed tt)
        ↔ ((false || has_any is_staff_roles (codes_of accounts 9)) ≡ true))
    × (false ≡ false
        → (require_staff t ≡ passed tt)
          ↔ (has_permission is_staff_roles (some (as_user accounts account)) ≡ true))
get_current_user-get_token_example =
    get_current_user-get_token decoding (λ h. some "t") (λ k. "9") accounts account "Bearer t" "t"
      refl refl refl

-- A hidden `vendor` would make the command raise; here there is no row but that of customers.
handle-handle_example :
    (t' : List Role) × (handle 2 (customer ∷ []) ≡ (ok tt, t'))
    × All (IsSeeded t') system_roles
    × (handle 50 t' ≡ (ok tt, t'))
unfolding ecommerce.Core.Models.lookup
handle-handle_example =
    handle-handle 2 50 (customer ∷ []) (refl, tt) (omega arith, tt)
      (inr (customer, refl), (inl refl, (inl refl, (inl refl, (inl refl, tt)))))

abbrev home : AddressInput
home = record { kind = shipping; label = "home"; text = ""; is_default = true }

abbrev work : AddressInput
work = record { kind = shipping; label = "work"; text = ""; is_default = false }

abbrev requests : List (ℕ × Request)
requests =
    (9, creates 1 1 home)
    ∷ (9, creates 2 2 work)
    ∷ (9, makes_default 2)
    ∷ (9, updates 1 work)
    ∷ (9, destroys 3 1)
    ∷ []

abbrev address : ℕ → AddressInput → Address
address id input = record {
  id = id;
  user = 9;
  kind = input.kind;
  label = input.label;
  text = input.text;
  is_default = input.is_default;
  created_at = id;
  deleted_at = none;
}
