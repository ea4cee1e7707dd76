-- ===== src/Gateway/Security.antt =====
-- fastapi_app/core/security.py: the user of a request, from its bearer token. The JWT library's
-- `decode` is a parameter, and so is the reading of the header's text: the stripped rest after
-- `bearer ` in any case, or none.
use text.Mathlib.Text.{◌==◌ as str_eq}
use ecommerce.Prelude.{
  ◌≡◌, Bool, not, ◌&&◌, Option, none, some, String, List, [], arith, any, if◌then◌else◌,
}

pub data HttpError : Type 0 where
  token_expired invalid_token missing_bearer_token staff_only : HttpError

pub data Checked (A : Type 0) : Type 0 where
  passed : A → Checked A
  refused : HttpError → Checked A

-- The claims that are read; `none` is a claim that is missing or empty.
pub record Claims : Type 0 where
  pub user_id : Option String
  pub sub : Option String
  pub email : Option String
  pub roles : Option (List String)
  pub is_staff : Bool

pub record TokenUser : Type 0 where
  pub id : String
  pub email : String
  pub roles : List String
  pub is_staff : Bool

-- What `jwt.decode` does: it returns the claims or raises one of two errors.
pub data Decoding : Type 0 where
  claims : Claims → Decoding
  expired invalid : Decoding

abbrev pub or_text : Option String → String → String
or_text none d = d
or_text (some s) d = s

abbrev pub or_no_roles : Option (List String) → List String
or_no_roles none = []
or_no_roles (some r) = r

module _ (jwt_decode : String → Decoding) (bearer : String → Option String) where
  abbrev decoded : Decoding → Checked Claims
  decoded (claims c) = passed c
  decoded expired = refused token_expired
  decoded invalid = refused invalid_token

  unfoldable pub decode : String → Checked Claims
  decode token = decoded (jwt_decode token)

  abbrev after_bearer : Option String → Checked String
  after_bearer none = refused missing_bearer_token
  after_bearer (some token) = passed token

  -- An empty header counts as none.
  unfoldable pub extract_token : Option String → Checked String
  extract_token none = refused missing_bearer_token
  extract_token (some header) =
      if str_eq header "" then refused missing_bearer_token else after_bearer (bearer header)

  abbrev pub token_user : Claims → TokenUser
  token_user c = record {
    id = or_text c.user_id (or_text c.sub "");
    email = or_text c.email "";
    roles = or_no_roles c.roles;
    is_staff = c.is_staff;
  }

  abbrev of_claims : Checked Claims → Checked TokenUser
  of_claims (passed c) = passed (token_user c)
  of_claims (refused e) = refused e

  abbrev of_token : Checked String → Checked TokenUser
  of_token (passed token) = of_claims (decode token)
  of_token (refused e) = refused e

  unfoldable pub get_current_user : Option String → Checked TokenUser
  unfolding extract_token decode
  get_current_user authorization = of_token (extract_token authorization)

  abbrev or_nobody : Checked TokenUser → Option TokenUser
  or_nobody (passed u) = some u
  or_nobody (refused e) = none

  unfoldable pub get_optional_user : Option String → Option TokenUser
  unfolding get_current_user
  get_optional_user none = none
  get_optional_user (some header) =
      if str_eq header "" then none else or_nobody (get_current_user (some header))

  -- The optional user is there exactly when the required one passes, and is the same.
  pub get_optional_user_lem :
      (authorization : Option String) (u : TokenUser)
      → (get_optional_user authorization ≡ some u → get_current_user authorization ≡ passed u)
        × (get_current_user authorization ≡ passed u → get_optional_user authorization ≡ some u)
  unfolding get_optional_user get_current_user extract_token
  get_optional_user_lem none u = ((λ h. absurd (ground arith)), (λ h. absurd (ground arith)))
  get_optional_user_lem (some header) u = ((λ h. ground arith), (λ h. ground arith))

unfoldable pub require_staff : TokenUser → Checked (Unit {0})
require_staff user =
    if not user.is_staff
      && (not (any (λ r. str_eq r "staff") user.roles)
          && not (any (λ r. str_eq r "admin") user.roles))
    then refused staff_only
    else passed tt
