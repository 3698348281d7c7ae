-- ===== src/Worker/Losses.antt =====
-- internal/worker/session.go and internal/store/connection_events.sql.go: the state, the trail's entry
-- and the frame that a loss makes, and the number that the trail recorded last.
use zappermeow.Base.{
  ℕ, Bool, true, false, ◌&&◌, List, [], ◌∷◌, Option, none, some, String, ◌==◌, if◌then◌else◌,
  is_empty, same_text,
}
use zappermeow.Domain.Instance.{InstanceState}
use zappermeow.Domain.Reason.{DisconnectReason}
use zappermeow.Domain.Trail.{
  ConnectionEventType, ConnectionEvent, Value, Detail, text, flag, instant, null, nested,
}
use zappermeow.Events.{FrameType}
use zappermeow.Wa.Session.{Loss}

-- `detail->>'phone_number'`.
abbrev phone_in : Detail → Option String
phone_in [] = none
phone_in ((key, text phone) ∷ more) =
    let rest = phone_in more in if same_text key "phone_number" then some phone else rest
phone_in (field ∷ more) = phone_in more

abbrev is_success : ConnectionEventType → Bool
is_success ConnectionEventType.pairing_succeeded = true
is_success _ = false

abbrev phone_or : Option String → Option String → Option String
phone_or none later = later
phone_or (some phone) later = some phone

-- `LastPairedPhone`: the number of the latest pairing that recorded one.
abbrev pub last_paired_phone : ℕ → List ConnectionEvent → Option String
last_paired_phone id [] = none
last_paired_phone id (e ∷ es) =
    let rest = last_paired_phone id es in
    if (e.instance_id == id) && is_success e.type then phone_or (phone_in e.detail) rest else rest

-- What a loss makes of the instance: its state, the trail's entry and the frame.
abbrev pub state_of_loss : Loss → InstanceState
state_of_loss l = elim l.reason [
  | DisconnectReason.logged_out_from_phone ↦ InstanceState.logged_out
  | DisconnectReason.temporary_ban ↦ InstanceState.banned
  | _ ↦ if l.permanent then InstanceState.disconnected else InstanceState.connecting
]

abbrev pub event_of_loss : DisconnectReason → ConnectionEventType
event_of_loss DisconnectReason.logged_out_from_phone = ConnectionEventType.logged_out
event_of_loss DisconnectReason.temporary_ban = ConnectionEventType.banned
event_of_loss _ = ConnectionEventType.disconnected

abbrev pub frame_of_loss : DisconnectReason → FrameType
frame_of_loss DisconnectReason.logged_out_from_phone = FrameType.logged_out
frame_of_loss DisconnectReason.temporary_ban = FrameType.banned
frame_of_loss _ = FrameType.disconnected

abbrev instant_or_null : Option ℕ → Value
instant_or_null none = null
instant_or_null (some t) = instant t

abbrev pub ban_detail : Option ℕ → Detail
ban_detail none = []
ban_detail (some t) = ("expires_at", instant t) ∷ []

-- The code on the frame stands in a member of its own.
abbrev pub nested_code : String → Detail
nested_code code =
    if is_empty code then [] else ("detail", nested (("stream_error_code", code) ∷ [])) ∷ []

abbrev pub code_detail : String → Detail
code_detail code = if is_empty code then [] else ("stream_error_code", text code) ∷ []

abbrev pub special_data : Loss → Detail
special_data l = elim l.reason [
  | DisconnectReason.logged_out_from_phone ↦ ("from_phone", flag true) ∷ []
  | DisconnectReason.temporary_ban ↦ ("expires_at", instant_or_null l.ban_expires_at) ∷ []
  | _ ↦ []
]

-- The handset removed the device.
abbrev pub is_remote_logout : DisconnectReason → Bool
is_remote_logout DisconnectReason.logged_out_from_phone = true
is_remote_logout _ = false
