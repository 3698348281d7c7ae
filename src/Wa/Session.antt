-- ===== src/Wa/Session.antt =====
-- internal/wa/session.go: the interface to one WhatsApp session, its events and its errors. What the
-- HyperMeow library does behind it is a parameter: a record of functions on a session's state.
use zappermeow.Base.{ℕ, Bool, String, Option, Result}
use zappermeow.Domain.Instance.{DeviceIdentity}
use zappermeow.Domain.Reason.{DisconnectReason}

pub data PairingMethod : Type 0 where
  by_qr by_phone : PairingMethod

pub data PairingFailure : Type 0 where
  scanned_without_multidevice client_outdated pair_error : PairingFailure
  unexpected_state passkey_error : PairingFailure

pub data PairingExpiry : Type 0 where
  window_exhausted cancelled replaced_by_new_attempt worker_shutdown : PairingExpiry

abbrev pub method_text : PairingMethod → String
method_text by_qr = "qr"
method_text by_phone = "phone"

abbrev pub failure_text : PairingFailure → String
failure_text scanned_without_multidevice = "scanned_without_multidevice"
failure_text client_outdated = "client_outdated"
failure_text pair_error = "pair_error"
failure_text unexpected_state = "unexpected_state"
failure_text passkey_error = "passkey_error"

abbrev pub expiry_text : PairingExpiry → String
expiry_text window_exhausted = "window_exhausted"
expiry_text cancelled = "cancelled"
expiry_text replaced_by_new_attempt = "replaced_by_new_attempt"
expiry_text worker_shutdown = "worker_shutdown"

-- What a lost connection reports.
pub record Loss : Type 0 where
  pub reason : DisconnectReason
  pub permanent : Bool
  pub ban_expires_at : Option ℕ
  pub stream_error_code : String

-- An event carries the fields of its kind.
pub data Event : Type 0 where
  pairing_code : PairingMethod → (code : String) → (expires_at : ℕ) → Event
  pairing_succeeded : Option DeviceIdentity → Event
  pairing_expired : PairingMethod → PairingExpiry → Event
  pairing_failed : PairingMethod → PairingFailure → Event
  connected : Event
  disconnected : Loss → Event
  passkey_challenge : (challenge : String) → Event
  passkey_code : (code : String) → Event
  manual_login_reconnect : Event

pub record Status : Type 0 where
  pub connected : Bool
  pub logged_in : Bool
  pub device : Option DeviceIdentity

-- The errors of the package, and any other error of the library.
pub data SessionError : Type 0 where
  already_paired not_paired session_closed pairing_running not_connected : SessionError
  invalid_phone_number proxy_connect_failed : SessionError
  no_passkey_challenge invalid_passkey_response no_passkey_code : SessionError
  identity_not_resolvable cannot_verify_self contact_unavailable invalid_contact : SessionError
  other : String → SessionError

-- `Close` drops the client; the state is then gone.
pub record SessionApi (S : Type 0) : Type 0 where
  -- The factory: the instance, its stored JID, its proxy URL.
  pub new_session : ℕ → ℕ → String → String → Result SessionError S
  pub qr_channel : S → Result SessionError (Unit {0}) × S
  pub pair_phone : ℕ → String → S → Result SessionError (String × ℕ) × S
  pub connect : S → Result SessionError (Unit {0}) × S
  pub disconnect : S → S
  pub logout : S → Result SessionError Bool × S
  pub status : S → Status
  pub set_passive : Bool → S → Result SessionError (Unit {0}) × S
  pub send_passkey_response : String → S → Result SessionError (Unit {0}) × S
  pub confirm_passkey : S → Result SessionError (Unit {0}) × S
