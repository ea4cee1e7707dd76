-- ===== src/Users/Tokens.antt =====
-- The access token of django_app/apps/users/serializers.py, and what the gateway's
-- fastapi_app/core/security.py makes of it. The text of a key is a parameter.
use text.Mathlib.Text.{◌==◌ as str_eq}
use ecommerce.Prelude.{ℕ, ◌≡◌, refl, ◌↔◌, true, false, ◌||◌, Option, none, some, String, arith}
use ecommerce.Core.Permissions.{has_permission, is_staff_roles, has_any}
use ecommerce.Gateway.Security.{
  Claims, TokenUser, Decoding, claims, passed, extract_token, decode, get_current_user,
  require_staff, token_user,
}
use ecommerce.Users.{Account, Accounts, codes_of, as_user}

-- `NovaTokenObtainPairSerializer.get_token`, with the user's key that SimpleJWT adds.
unfoldable pub get_token : (ℕ → String) → Accounts → Account → Claims
get_token text_of acc u = record {
  user_id = some (text_of u.id);
  sub = none;
  email = some u.email;
  roles = some (codes_of acc u.id);
  is_staff = u.is_staff;
}

-- A request bears a token of a user, which the JWT library decodes to the claims that it was made
-- from. The gateway takes the request for that user, with the roles of the user. It lets the user
-- through as staff exactly when the user is marked as staff or has the role of staff or of an
-- administrator; if the marks of staff and of a superuser agree, this is what Django's `IsStaff` says.
pub get_current_user-get_token :
    (jwt_decode : String → Decoding) (bearer : String → Option String) (text_of : ℕ → String)
    (acc : Accounts) (u : Account) (header token : String)
    → str_eq header "" ≡ false
    → bearer header ≡ some token
    → jwt_decode token ≡ claims (get_token text_of acc u)
    → (t : TokenUser) × (get_current_user jwt_decode bearer (some header) ≡ passed t)
      × ((t.id ≡ text_of u.id) × (t.email ≡ u.email) × (t.roles ≡ codes_of acc u.id))
      × ((require_staff t ≡ passed tt)
          ↔ ((u.is_staff || has_any is_staff_roles (codes_of acc u.id)) ≡ true))
      × (u.is_staff ≡ u.is_superuser
          → (require_staff t ≡ passed tt)
            ↔ (has_permission is_staff_roles (some (as_user acc u)) ≡ true))
unfolding get_current_user extract_token decode require_staff has_permission get_token
get_current_user-get_token jwt_decode bearer text_of acc u header token there borne decoded = (
  token_user jwt_decode bearer (get_token text_of acc u),
  rw (there, borne, decoded) refl,
  (refl, refl, refl),
  ((λ h. ground arith), (λ h. ground arith)),
  (λ same. ((λ h. ground arith), (λ h. ground arith))),
)
