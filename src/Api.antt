-- ===== src/Api.antt =====
-- The REST views of django_app/apps, around the services: what a request is answered with, and
-- `api_exception_handler` of core/exceptions.py. Of a reply the status and what its body is are kept.
pub mod Errors
pub mod Carts
pub mod Selling
pub mod Adding
pub mod Owners
use ecommerce.Prelude.{ℕ, Bool, true, false, Option, none, some, String}
use ecommerce.Exec.{Result, ok, err, Error, validation_error, out_of_stock, checkout_error}
use ecommerce.Database.{Db}

-- The exceptions that reach the handler: Http404 and PermissionDenied of Django, PermissionDenied of
-- the REST framework, its other exceptions with their status and code, and what services raise.
pub data Exception : Type 0 where
  http404 forbidden denied : Exception
  api : ℕ → String → Exception
  service : Error → Exception

abbrev pub invalid : Exception
invalid = api 400 "invalid"

abbrev pub not_authenticated : Exception
not_authenticated = api 401 "not_authenticated"

-- `data_of` is what a serializer gives, `envelope` is {"error": {"code": …}} and `detail` is the body
-- that the framework makes.
pub data Body (A : Type 0) : Type 0 where
  data_of : A → Body A
  envelope : String → Body A
  detail : Body A

pub record Response (A : Type 0) : Type 0 where
  pub status : ℕ
  pub body : Body A

pub data Answer (A : Type 0) : Type 0 where
  replies : Response A → Answer A
  raises : Exception → Answer A

abbrev pub reply : {A : Type 0} → ℕ → A → Answer A
reply status a = replies (record { status = status; body = data_of a })

abbrev pub error_response : {A : Type 0} → ℕ → String → Response A
error_response status code = record { status = status; body = envelope code }

-- A view goes on after a service that returns; what a service raises is raised.
abbrev pub after : {A B : Type 0} → Result A × Db → (A → Db → Answer B × Db) → Answer B × Db
after (ok a, db) k = k a db
after (err e, db) k = (raises (service e), db)

-- `except OutOfStockError`
abbrev pub unless_out_of_stock :
    {A B : Type 0} → Result A × Db → (A → Db → Answer B × Db) → Answer B × Db
unless_out_of_stock (ok a, db) k = k a db
unless_out_of_stock (err out_of_stock, db) k = (replies (error_response 409 "out_of_stock"), db)
unless_out_of_stock (err e, db) k = (raises (service e), db)

-- `except CheckoutError`
abbrev pub unless_checkout_error :
    {A B : Type 0} → ℕ → String → Result A × Db → (A → Db → Answer B × Db) → Answer B × Db
unless_checkout_error status code (ok a, db) k = k a db
unless_checkout_error status code (err checkout_error, db) k =
    (replies (error_response status code), db)
unless_checkout_error status code (err e, db) k = (raises (service e), db)

-- `isinstance(exc, APIException)`
abbrev pub is_api : Exception → Bool
is_api denied = true
is_api (api status code) = true
is_api _ = false

abbrev pub default_code : Exception → String
default_code denied = "permission_denied"
default_code (api status code) = code
default_code _ = "error"

-- The exceptions that the framework has left.
abbrev pub map_other : {A : Type 0} → Exception → Response A
map_other http404 = error_response 404 "not_found"
map_other (service validation_error) = error_response 400 "validation"
map_other denied = error_response 403 "forbidden"
map_other _ = error_response 500 "internal"

-- `drf_default_handler` gives the status that the framework answers an exception with, if it does.
module _ (drf_default_handler : Exception → Option ℕ) where
  abbrev pub normalised : {A : Type 0} → Exception → Option ℕ → Response A
  normalised exc none = map_other exc
  normalised exc (some status) = elim (is_api exc) [
    | true ↦ record { status = status; body = envelope (default_code exc) }
    | false ↦ record { status = status; body = detail }
  ]

  unfoldable pub api_exception_handler : {A : Type 0} → Exception → Response A
  api_exception_handler exc = normalised exc (drf_default_handler exc)
