-- ===== src/Api/Problems.antt =====
-- internal/api/httperr/httperr.go: the problem document that a client sees for an error. The texts of
-- the HTTP statuses (net/http) and the lower case of a code's text are parameters of what uses them.
use zappermeow.Base.{
  ℕ, Bool, ◌||◌, ◌&&◌, String, List, [], ◌∷◌, map, Option, none, some, leb, ltb, ◌==◌,
  if◌then◌else◌, is_empty, any,
}
use zappermeow.Domain.Errors.{Code, FieldError, Error}

-- huma's detail of an error; a value is its printed form.
pub record ErrorDetail : Type 0 where
  pub message : String
  pub location : String
  pub value : Option String

pub record ProblemDetail : Type 0 where
  pub type : String
  title : String
  pub status : ℕ
  pub detail : String
  pub code : Code
  pub errors : List ErrorDetail
  timestamp : ℕ

unfoldable pub status_for : Code → ℕ
status_for Code.invalid_credentials = 401
status_for Code.unauthenticated = 401
status_for Code.wrong_audience = 403
status_for Code.tenant_suspended = 403
status_for Code.password_change_required = 403
status_for Code.invalid_current_password = 403
status_for Code.resource_not_found = 404
status_for Code.resource_conflict = 409
status_for Code.validation = 422
status_for Code.rate_limit_exceeded = 429
status_for Code.instance_not_paired = 409
status_for Code.already_paired = 409
status_for Code.pairing_in_progress = 409
status_for Code.invalid_phone_number = 422
status_for Code.session_unavailable = 503
status_for Code.session_not_running = 503
status_for Code.whatsapp_unavailable = 502
status_for Code.invalid_proxy_url = 422
status_for Code.unsupported_proxy_scheme = 422
status_for Code.identity_not_resolvable = 422
status_for Code.invalid_contact = 422
status_for Code.cannot_verify_self = 422
status_for Code.no_passkey_challenge = 409
status_for Code.no_passkey_code = 409
status_for Code.instance_not_connected = 409
status_for Code.contact_unavailable = 404
status_for _ = 500

unfoldable pub code_for_status : ℕ → Code
code_for_status s =
    if (s == 400) || (s == 422)
    then Code.validation
    else if s == 401
    then Code.unauthenticated
    else if s == 403
    then Code.wrong_audience
    else if s == 404
    then Code.resource_not_found
    else if s == 405
    then Code.method_not_allowed
    else if (s == 406) || (s == 415)
    then Code.unsupported_media_type
    else if s == 413
    then Code.request_too_large
    else if s == 409
    then Code.resource_conflict
    else if s == 429
    then Code.rate_limit_exceeded
    else if leb 400 s && ltb s 500
    then Code.bad_request
    else Code.internal

-- An error that a service returns: a ready problem, an error of the domain, or any other.
pub data Failure : Type 0 where
  problem : ProblemDetail → Failure
  domain_error : Error → Failure
  foreign : String → Failure

module _ (status_text : ℕ → String) (type_slug : Code → String) (now : ℕ) where
  unfoldable pub new_problem : ℕ → Code → String → List ErrorDetail → ProblemDetail
  new_problem status code detail details = record {
    type = type_slug code;
    title = if is_empty (status_text status) then "Error" else status_text status;
    status = status;
    detail = detail;
    code = code;
    errors = details;
    timestamp = now;
  }

  abbrev detail_of : FieldError → ErrorDetail
  detail_of f = record { message = f.message; location = f.location; value = none }

  unfoldable pub from : Failure → ProblemDetail
  from (problem p) = p
  from (domain_error e) = new_problem (status_for e.code) e.code e.detail (map detail_of e.fields)
  from (foreign t) = new_problem 500 Code.internal "Internal server error" []

-- `contains` is strings.Contains and `normal` the text in lower case with `-` as `_`.
module _ (contains : String → String → Bool) (normal : String → String) where
  abbrev sensitive_members : List String
  sensitive_members = "password" ∷ "secret" ∷ "token" ∷ "api_key" ∷ "apikey" ∷ []

  unfoldable pub is_sensitive : String → Bool
  is_sensitive text = any (contains (normal text)) sensitive_members

  abbrev kept : Option String → Option String
  kept none = none
  kept (some v) = if is_sensitive v then none else some v

  unfoldable pub redact : ErrorDetail → ErrorDetail
  redact d = record d { value = if is_sensitive d.location then none else kept d.value }
