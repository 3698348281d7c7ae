-- ===== src/Domain/Errors.antt =====
-- internal/domain/errors.go: the domain's errors, with the codes that clients branch on.
use zappermeow.Base.{List, [], ◌∷◌, Option, none, some, String, is_empty, if◌then◌else◌}

pub data Code : Type 0 where
  invalid_credentials unauthenticated wrong_audience tenant_suspended : Code
  password_change_required invalid_current_password resource_not_found resource_conflict : Code
  validation rate_limit_exceeded internal : Code
  instance_not_paired already_paired pairing_in_progress invalid_phone_number : Code
  session_unavailable whatsapp_unavailable session_not_running : Code
  invalid_proxy_url unsupported_proxy_scheme no_passkey_challenge no_passkey_code : Code
  instance_not_connected identity_not_resolvable invalid_contact cannot_verify_self : Code
  contact_unavailable : Code
  unsupported_media_type method_not_allowed request_too_large bad_request : Code

pub record FieldError : Type 0 where
  pub location : String
  pub message : String

-- The cause is the text of the underlying failure.
pub record Error : Type 0 where
  pub code : Code
  pub detail : String
  pub fields : List FieldError
  pub cause : Option String

abbrev pub with_cause : String → Error → Error
with_cause cause e = record e { cause = some cause }

abbrev plain : Code → String → Error
plain code detail = record { code = code; detail = detail; fields = []; cause = none }

abbrev on_field : Code → String → String → String → Error
on_field code detail location message = record {
  code = code;
  detail = detail;
  fields = (record { location = location; message = message }) ∷ [];
  cause = none;
}

abbrev pub err_internal : String → Error
err_internal cause = with_cause cause (plain internal "Internal server error")

abbrev pub err_instance_not_paired : Error
err_instance_not_paired = plain instance_not_paired "Instance is not paired with WhatsApp"

abbrev pub err_already_paired : Error
err_already_paired = plain already_paired "Instance already has a paired device"

abbrev pub err_pairing_in_progress : Error
err_pairing_in_progress = plain pairing_in_progress "A pairing attempt is already in progress"

abbrev pub err_invalid_phone_number : Error
err_invalid_phone_number =
    on_field invalid_phone_number
      "Phone number must be in international format without a leading plus or zero"
      "body.phone_number" "invalid international phone number"

abbrev pub err_session_unavailable : Error
err_session_unavailable =
    plain session_unavailable "No session worker is available to serve this command"

abbrev pub err_no_passkey_challenge : Error
err_no_passkey_challenge =
    plain no_passkey_challenge "No passkey challenge is pending for this instance"

abbrev pub err_no_passkey_code : Error
err_no_passkey_code =
    plain no_passkey_code "No passkey confirmation code is pending for this instance"

abbrev pub err_instance_not_connected : Error
err_instance_not_connected =
    plain instance_not_connected "Instance must be connected to serve this request"

abbrev pub err_identity_not_resolvable : Error
err_identity_not_resolvable =
    on_field identity_not_resolvable "No known LID mapping for the given phone number"
      "query.contact" "identity not resolvable"

abbrev pub err_invalid_contact : Error
err_invalid_contact =
    on_field invalid_contact "Contact must be a LID or an international phone number"
      "query.contact" "invalid contact"

abbrev pub err_cannot_verify_self : Error
err_cannot_verify_self =
    on_field cannot_verify_self
      "Identity verification codes describe a contact, not the instance itself" "query.contact"
      "contact is the instance itself"

abbrev pub err_contact_unavailable : Error
err_contact_unavailable =
    plain contact_unavailable "Contact is unknown to WhatsApp or has no active devices"

abbrev pub err_whatsapp_unavailable : Error
err_whatsapp_unavailable = plain whatsapp_unavailable "WhatsApp did not accept the command"

abbrev pub err_session_not_running : Error
err_session_not_running =
    plain session_not_running
      "The session is not running on the worker that owns it; connect again to restart it"

abbrev pub err_unauthenticated : String → Error
err_unauthenticated detail =
    plain unauthenticated (if is_empty detail then "Authentication required" else detail)

abbrev pub err_tenant_suspended : Error
err_tenant_suspended = plain Code.tenant_suspended "Tenant is suspended"

abbrev pub err_invalid_proxy_url : Error
err_invalid_proxy_url = record {
  code = Code.invalid_proxy_url;
  detail = "Proxy URL must be a valid absolute URL with a host";
  fields = record { location = "body.url"; message = "invalid proxy URL" } ∷ [];
  cause = none;
}

abbrev pub err_unsupported_proxy_scheme : Error
err_unsupported_proxy_scheme = record {
  code = Code.unsupported_proxy_scheme;
  detail = "Proxy scheme must be one of http, https or socks5";
  fields = record { location = "body.url"; message = "unsupported proxy scheme" } ∷ [];
  cause = none;
}

abbrev pub err_rate_limited : Error
err_rate_limited = plain rate_limit_exceeded "Rate limit exceeded"

abbrev pub err_not_found : Error
err_not_found = plain resource_not_found "Resource not found"

abbrev pub err_invalid_credentials : Error
err_invalid_credentials = plain invalid_credentials "Invalid email or password"

abbrev pub err_wrong_audience : Error
err_wrong_audience = plain wrong_audience "Token audience is not valid for this route"

abbrev pub err_password_change_required : Error
err_password_change_required =
    plain password_change_required "A password change is required before any other operation"

abbrev pub err_invalid_current_password : Error
err_invalid_current_password = plain invalid_current_password "Current password is incorrect"

abbrev pub err_conflict : String → String → Error
err_conflict location message =
    on_field resource_conflict "Resource conflicts with an existing one" location message

abbrev pub err_validation : String → String → Error
err_validation location message = on_field validation "Request validation failed" location message

abbrev pub err_validation_fields : List FieldError → Error
err_validation_fields fields = record {
  code = validation;
  detail = "Request validation failed";
  fields = fields;
  cause = none;
}
