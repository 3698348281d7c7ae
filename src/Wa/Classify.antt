-- ===== src/Wa/Classify.antt =====
-- internal/wa/classify.go: what a library event says about the connection. Which other events the
-- library declares permanent (its interface `PermanentDisconnect`) is the parameter `declared`.
pub mod Laws
use zappermeow.Base.{ℕ, ◌+◌, Bool, true, false, String, Option, none, some, ltb, if◌then◌else◌}
use zappermeow.Domain.Instance.{InstanceState, connecting, banned}
use zappermeow.Domain.Reason.{DisconnectReason}

-- The events of the library that the platform tells apart. An expiry is a duration: one that is
-- not positive is 0.
pub data LibraryEvent : Type 0 where
  connected pair_success pair_error scanned_without_multidevice : LibraryEvent
  disconnected keep_alive_timeout manual_login_reconnect : LibraryEvent
  stream_error : String → LibraryEvent
  logged_out stream_replaced client_outdated connect_failure cat_refresh_error : LibraryEvent
  temporary_ban : ℕ → LibraryEvent
  unknown : ℕ → LibraryEvent

pub record Classification : Type 0 where
  pub state : InstanceState
  pub reason : DisconnectReason
  pub permanent : Bool
  pub ban_expires_at : Option ℕ
  pub stream_error_code : String
  pub manual_reconnect : Bool

-- A verdict with the zero value in every field but three.
abbrev pub verdict : InstanceState → DisconnectReason → Bool → Classification
verdict s r p = record {
  state = s;
  reason = r;
  permanent = p;
  ban_expires_at = none;
  stream_error_code = "";
  manual_reconnect = false;
}

-- An expiry of 0 sets no deadline.
abbrev ban_deadline : ℕ → ℕ → Option ℕ
ban_deadline now expire = if ltb 0 expire then some (now + expire) else none

module _ (declared : LibraryEvent → Bool) where
  -- The `default` case.
  abbrev classify_other : LibraryEvent → Option Classification
  classify_other e =
      if declared e
      then some (verdict InstanceState.disconnected DisconnectReason.connect_failure true)
      else none

  -- `now` is `time.Now()`; `none` is the second result `false`.
  unfoldable pub classify_disconnect : ℕ → LibraryEvent → Option Classification
  classify_disconnect now disconnected = some (verdict connecting DisconnectReason.network false)
  classify_disconnect now keep_alive_timeout =
      some (verdict connecting DisconnectReason.keepalive_timeout false)
  classify_disconnect now (stream_error code) = some (record {
    state = connecting;
    reason = DisconnectReason.stream_error;
    permanent = false;
    ban_expires_at = none;
    stream_error_code = code;
    manual_reconnect = false;
  })
  classify_disconnect now manual_login_reconnect = some (record {
    state = connecting;
    reason = DisconnectReason.network;
    permanent = false;
    ban_expires_at = none;
    stream_error_code = "";
    manual_reconnect = true;
  })
  classify_disconnect now logged_out =
      some (verdict InstanceState.logged_out DisconnectReason.logged_out_from_phone true)
  classify_disconnect now (temporary_ban expire) = some (record {
    state = banned;
    reason = DisconnectReason.temporary_ban;
    permanent = true;
    ban_expires_at = ban_deadline now expire;
    stream_error_code = "";
    manual_reconnect = false;
  })
  classify_disconnect now stream_replaced =
      some (verdict InstanceState.disconnected DisconnectReason.session_replaced true)
  classify_disconnect now client_outdated =
      some (verdict InstanceState.disconnected DisconnectReason.client_outdated true)
  classify_disconnect now connect_failure =
      some (verdict InstanceState.disconnected DisconnectReason.connect_failure true)
  classify_disconnect now cat_refresh_error =
      some (verdict InstanceState.disconnected DisconnectReason.cat_refresh_failed true)
  classify_disconnect now e = classify_other e

unfoldable pub is_alarm : Classification → Bool
is_alarm c = elim c.reason [ DisconnectReason.session_replaced ↦ true | _ ↦ false ]
