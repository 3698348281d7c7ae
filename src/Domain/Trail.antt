-- ===== src/Domain/Trail.antt =====
-- internal/domain/connectionevent.go: the vocabulary of the connection trail and its entries.
use zappermeow.Base.{ℕ, Bool, true, false, String, List, Option}
use zappermeow.Domain.Reason.{DisconnectReason}

pub data ConnectionEventType : Type 0 where
  pairing_started pairing_succeeded pairing_expired pairing_failed : ConnectionEventType
  connected disconnected logged_out banned number_changed : ConnectionEventType
  lease_acquired lease_lost deleted stream_error manual_login_reconnect : ConnectionEventType
  proxy_updated passive_mode_updated : ConnectionEventType
  passkey_challenge passkey_responded passkey_confirmed : ConnectionEventType
  other : String → ConnectionEventType

unfoldable pub is_valid : ConnectionEventType → Bool
is_valid (other s) = false
is_valid _ = true

-- A value of a `map[string]any` that the worker writes.
pub data Value : Type 0 where
  text : String → Value
  flag : Bool → Value
  instant : ℕ → Value
  null : Value
  nested : List (String × String) → Value
  device : (jid phone_number push_name platform : String) → Value

abbrev pub Detail : Type 0
Detail = List (String × Value)

-- The reason is absent for `ReasonNone`.
pub record ConnectionEvent : Type 0 where
  pub instance_id : ℕ
  pub type : ConnectionEventType
  pub reason : Option DisconnectReason
  pub detail : Detail
  pub occurred_at : ℕ
