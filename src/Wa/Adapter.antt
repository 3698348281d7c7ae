-- ===== src/Wa/Adapter.antt =====
-- internal/wa/hypermeow.go: the adapter around one HyperMeow client. What the library answers is a
-- parameter of each operation; `declared` is its interface for permanent disconnects.
pub mod Laws
use zappermeow.Base.{
  ℕ, ◌+◌, Bool, true, false, not, String, List, [], ◌∷◌, ◌++◌, Option, none, some, Result, ok, err,
  ltb, length, if◌then◌else◌,
}
use zappermeow.Domain.Instance.{DeviceIdentity}
use zappermeow.Wa.Classify.{LibraryEvent, Classification, classify_disconnect}
use zappermeow.Wa.Session.{
  Event, Loss, SessionError, PairingFailure, by_qr, window_exhausted, pair_error,
  scanned_without_multidevice, client_outdated, unexpected_state, passkey_error,
  no_passkey_challenge, no_passkey_code, invalid_passkey_response, other,
}

pub data PasskeyPhase : Type 0 where
  none_pending awaiting_response awaiting_confirm : PasskeyPhase

-- `queue` is the event channel, the oldest first.
pub record Adapter : Type 0 where
  pub closed : Bool
  pub permanent : Bool
  pub passkey_phase : PasskeyPhase
  pub device : Option DeviceIdentity
  pub queue : List Event

-- The channels' sizes: of the session's events and of a QR attempt.
abbrev pub event_buffer : ℕ
event_buffer = 32

abbrev qr_buffer : ℕ
qr_buffer = 8

-- A send that does not wait: a full channel drops the event.
abbrev offer : ℕ → Event → List Event → List Event
offer size e queue = if ltb (length queue) size then queue ++ (e ∷ []) else queue

unfoldable pub emit : Event → Adapter → Adapter
emit e a = record a { queue = if a.closed then a.queue else offer event_buffer e a.queue }

abbrev pub loss_of : Classification → Loss
loss_of c = record {
  reason = c.reason;
  permanent = c.permanent;
  ban_expires_at = c.ban_expires_at;
  stream_error_code = c.stream_error_code;
}

abbrev verdict_event : Classification → Event
verdict_event c =
    if c.manual_reconnect then Event.manual_login_reconnect else Event.disconnected (loss_of c)

abbrev classified : Option Classification → Adapter → Adapter
classified none a = a
classified (some c) a = emit (verdict_event c) (record a { permanent = c.permanent })

module _ (declared : LibraryEvent → Bool) (now : ℕ) where
  unfoldable pub handle_event : LibraryEvent → Adapter → Adapter
  handle_event LibraryEvent.connected a = emit Event.connected (record a { permanent = false })
  handle_event LibraryEvent.pair_success a = emit (Event.pairing_succeeded a.device) a
  handle_event LibraryEvent.pair_error a = emit (Event.pairing_failed by_qr pair_error) a
  handle_event LibraryEvent.scanned_without_multidevice a =
      emit (Event.pairing_failed by_qr scanned_without_multidevice) a
  handle_event e a = classified (classify_disconnect declared now e) a

-- Whether the library may try again.
unfoldable pub reconnect_hook : Adapter → Bool
reconnect_hook a = not a.permanent

-- An item of the library's QR channel. A request for a passkey carries the encoded challenge, if it
-- can be encoded.
pub data QrItem : Type 0 where
  code : String → (timeout : ℕ) → QrItem
  success timeout err_scanned_without_multidevice err_client_outdated : QrItem
  err_unexpected_state error unknown : QrItem
  passkey_request : Option String → QrItem
  passkey_response : Option String → QrItem

abbrev is_in_flight : PasskeyPhase → Bool
is_in_flight none_pending = false
is_in_flight _ = true

abbrev code_or_empty : Option String → String
code_or_empty none = ""
code_or_empty (some c) = c

-- The event of an item, if it makes one, and the phase after it. A failure's method is unset in the
-- source and reads as the QR one.
unfoldable pub translate_item :
    ℕ → QrItem → Option DeviceIdentity → PasskeyPhase → Option Event × PasskeyPhase
translate_item now (code c t) device phase = (some (Event.pairing_code by_qr c (now + t)), phase)
translate_item now success device phase = (some (Event.pairing_succeeded device), phase)
translate_item now timeout device phase =
    (some (Event.pairing_expired by_qr window_exhausted), phase)
translate_item now err_scanned_without_multidevice device phase =
    (some (Event.pairing_failed by_qr scanned_without_multidevice), phase)
translate_item now err_client_outdated device phase =
    (some (Event.pairing_failed by_qr client_outdated), phase)
translate_item now err_unexpected_state device phase =
    (some (Event.pairing_failed by_qr unexpected_state), phase)
translate_item now (passkey_request none) device phase =
    (some (Event.pairing_failed by_qr passkey_error), phase)
translate_item now (passkey_request (some challenge)) device phase =
    (some (Event.passkey_challenge challenge), awaiting_response)
translate_item now (passkey_response c) device phase =
    (some (Event.passkey_code (code_or_empty c)), awaiting_confirm)
translate_item now error device phase = (
  some (Event.pairing_failed by_qr (if is_in_flight phase then passkey_error else pair_error)),
  phase,
)
translate_item now unknown device phase = (none, phase)

abbrev offered : Option Event → List Event → List Event
offered none out = out
offered (some e) out = offer qr_buffer e out

-- One turn of the loop over the channel, with the events of the attempt.
unfoldable pub pump_item : ℕ → QrItem → Adapter × List Event → Adapter × List Event
pump_item now item (a, out) =
    let (e, phase) = translate_item now item a.device a.passkey_phase in
    (record a { passkey_phase = phase }, offered e out)

abbrev settled : Result SessionError (Unit {0}) → Adapter → Result SessionError (Unit {0}) × Adapter
settled (err e) a = (err e, a)
settled (ok u) a = (ok tt, record a { passkey_phase = none_pending })

-- `readable` says whether the JSON of the answer can be read, `library` what the library returns.
unfoldable pub send_passkey_response :
    Bool → Result SessionError (Unit {0}) → Adapter → Result SessionError (Unit {0}) × Adapter
send_passkey_response readable library a = elim a.passkey_phase [
  | awaiting_response ↦ if readable then settled library a else (err invalid_passkey_response, a)
  | _ ↦ (err no_passkey_challenge, a)
]

abbrev pub confirm_in :
    PasskeyPhase
    → Result SessionError (Unit {0})
    → Adapter
    → Result SessionError (Unit {0}) × Adapter
confirm_in awaiting_confirm library a = settled library a
confirm_in _ library a = (err no_passkey_code, a)

unfoldable pub confirm_passkey :
    Result SessionError (Unit {0}) → Adapter → Result SessionError (Unit {0}) × Adapter
confirm_passkey library a = confirm_in a.passkey_phase library a
