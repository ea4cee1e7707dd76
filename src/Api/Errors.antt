-- ===== src/Api/Errors.antt =====
-- What django_app/apps/core/exceptions.py makes of every exception.
use ecommerce.Prelude.{ℕ, ◌≡◌, refl, Option, none, some, String}
use ecommerce.Exec.{Error, validation_error}
use ecommerce.Api.{
  Exception, http404, forbidden, denied, api, service, Body, Response, envelope, detail,
  api_exception_handler,
}

-- What the REST framework documents of its handler: it answers its own exceptions with their status,
-- Http404 and Django's PermissionDenied as its own NotFound and PermissionDenied, and nothing else.
pub record Documented (drf : Exception → Option ℕ) : Type 0 where
  pub of_http404 : drf http404 ≡ some 404
  pub of_forbidden : drf forbidden ≡ some 403
  pub of_denied : drf denied ≡ some 403
  pub of_api : (status : ℕ) (code : String) → drf (api status code) ≡ some status
  pub of_service : (e : Error) → drf (service e) ≡ none

-- The status of every exception, and its body.
abbrev pub status_of : Exception → ℕ
status_of http404 = 404
status_of forbidden = 403
status_of denied = 403
status_of (api status code) = status
status_of (service validation_error) = 400
status_of (service e) = 500

abbrev pub body_of : {A : Type 0} → Exception → Body A
body_of http404 = detail
body_of forbidden = detail
body_of denied = envelope "permission_denied"
body_of (api status code) = envelope code
body_of (service validation_error) = envelope "validation"
body_of (service e) = envelope "internal"

module _ {A : Type 0} (drf : Exception → Option ℕ) (documented : Documented drf) where
  -- With the framework's handler as it is documented: an exception of the framework is answered with
  -- its own status and an envelope with its own code; Http404 and Django's PermissionDenied with 404
  -- and 403 and the framework's body instead of the envelope; a validation error of Django with 400
  -- and the code `validation`; any other exception of a service with 500 and the code `internal`.
  pub api_exception_handler_lem :
      (exc : Exception)
      → let r : Response A = api_exception_handler drf exc in
        (r.status ≡ status_of exc) × (r.body ≡ body_of exc)
  unfolding api_exception_handler
  api_exception_handler_lem http404 = rw documented.of_http404 (refl, refl)
  api_exception_handler_lem forbidden = rw documented.of_forbidden (refl, refl)
  api_exception_handler_lem denied = rw documented.of_denied (refl, refl)
  api_exception_handler_lem (api status code) = rw (documented.of_api status code) (refl, refl)
  api_exception_handler_lem (service validation_error) =
      rw (documented.of_service validation_error) (refl, refl)
  api_exception_handler_lem (service e) = rw (documented.of_service e) (refl, refl)
