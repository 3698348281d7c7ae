-- ===== src/Worker/Commands.antt =====
-- internal/worker/supervisor.go and session.go: the commands that reach a running session over gRPC.
use zappermeow.Base.{
  ℕ, ◌+◌, Bool, true, false, not, ◌&&◌, [], ◌∷◌, Option, none, some, String, Result, ok, err, ◌>>=◌,
  if◌then◌else◌, is_empty,
}
use zappermeow.Domain.Instance.{InstanceState}
use zappermeow.Domain.Reason.{DisconnectReason, to_string}
use zappermeow.Domain.Trail.{ConnectionEventType, text, flag}
use zappermeow.Events.{FrameType}
use zappermeow.Store.Instances.{InstanceRow, get_instance, clear_device_identity}
use zappermeow.Wa.Session.{
  SessionApi, SessionError, Status, pairing_running, replaced_by_new_attempt,
}
use zappermeow.Worker.State.{
  Call, WorkerError, Config, Managed, World, lookup, is_pairing, set_pairing_until, cancel_pairing,
  with_session, set_state, record_loss, append, emit, load_instance, reads_settings,
  clears_identity,
}
use zappermeow.Worker.Sessions.{stop, hand_back, publish_pairing_ended}

pub record ConnectResult : Type 0 where
  pub state : InstanceState
  pub pairing_started : Bool
  pub pairing_expires_at : Option ℕ

pub record SettingsResult : Type 0 where
  pub state : InstanceState
  pub reconnecting : Bool
  pub passive_applied : Bool

pub record StatusSnapshot : Type 0 where
  pub state : InstanceState
  pub status : Status
  pub connected_at : Option ℕ

-- The session knows a device with a JID.
abbrev pub is_paired : Status → Bool
is_paired s = elim s.device [ none ↦ false | some d ↦ not (is_empty d.jid) ]

abbrev pub from_session {ℓ} : {A : Type ℓ} → Result SessionError A → Result WorkerError A
from_session (ok a) = ok a
from_session (err e) = err (WorkerError.session e)

-- `GetInstanceSettings`: the passive mode; the proxy is read again when the session is built.
abbrev settings_of : Option InstanceRow → Result WorkerError Bool
settings_of none = err WorkerError.unknown_instance
settings_of (some row) = ok row.passive_mode

abbrev pub Outcome : Type 0 → Type 0 → Type 0
Outcome S A = Result WorkerError A × World S

module _ {S : Type 0} (api : SessionApi S) (c : Config) (down : Call → Bool) (now : ℕ) where
  abbrev on_session : {A : Type 0} → ℕ → (Managed S → World S → Outcome S A) → World S → Outcome S A
  on_session id f w = elim (lookup id w) [
    | none ↦ (err WorkerError.unknown_instance, w)
    | some m ↦ f m w
  ]

  unfoldable pub load_settings : ℕ → World S → Result WorkerError Bool
  load_settings id w =
      if down reads_settings
      then err (WorkerError.failed "load instance settings")
      else settings_of (get_instance id w.instances)

  abbrev pub pairing_opened :
      ℕ → ℕ → World S → Result WorkerError (Unit {0}) × World S → Outcome S ℕ
  pairing_opened id expires_at before (err e, w) = (err e, w)
  pairing_opened id expires_at before (ok u, w) = (
    ok expires_at,
    append down now id ConnectionEventType.pairing_started DisconnectReason.none [] w,
  )

  -- The socket opens on the session's own context.
  abbrev pub pairing_dialled : ℕ → ℕ → Result SessionError (Unit {0}) × S → World S → Outcome S ℕ
  pairing_dialled id expires_at (err e, s) w =
      (err (WorkerError.session e), cancel_pairing id (with_session s id w))
  pairing_dialled id expires_at (ok u, s) w =
      let dialled = with_session s id w in
      pairing_opened id expires_at dialled (set_state down now id InstanceState.pairing dialled)

  abbrev pub qr_opened : ℕ → Result SessionError (Unit {0}) × S → World S → Outcome S ℕ
  qr_opened id (err e, s) w = (err (WorkerError.session e), with_session s id w)
  qr_opened id (ok u, s) w =
      let expires_at = now + c.pairing_window in
      pairing_dialled id expires_at (api.connect s) (set_pairing_until (some expires_at) id w)

  -- The QR stream opens before the connection.
  unfoldable pub start_pairing : Managed S → World S → Outcome S ℕ
  start_pairing m w = qr_opened m.instance_id (api.qr_channel m.session) w

  abbrev dialled_with : InstanceState → ConnectResult
  dialled_with s = record { state = s; pairing_started = false; pairing_expires_at = none }

  abbrev pub connected_by :
      ℕ → Result SessionError (Unit {0}) × S → World S → Outcome S ConnectResult
  connected_by id (err e, s) w = (err (WorkerError.session e), with_session s id w)
  connected_by id (ok u, s) w = (ok (dialled_with InstanceState.connecting), with_session s id w)

  abbrev pub pairing_by : Outcome S ℕ → Outcome S ConnectResult
  pairing_by (err e, w) = (err e, w)
  pairing_by (ok expires_at, w) = (
    ok (record {
      state = InstanceState.pairing;
      pairing_started = true;
      pairing_expires_at = some expires_at;
    }),
    w,
  )

  abbrev pub connect_session : Managed S → World S → Outcome S ConnectResult
  connect_session m w =
      let status = api.status m.session in
      if status.connected
      then (ok (dialled_with InstanceState.connected), w)
      else if is_paired status
      then connected_by m.instance_id (api.connect m.session) w
      else pairing_by (start_pairing m w)

  unfoldable pub connect : ℕ → World S → Outcome S ConnectResult
  connect id = on_session id connect_session

  abbrev pub phone_opened :
      ℕ → String × ℕ → Result WorkerError (Unit {0}) × World S → Outcome S (String × ℕ)
  phone_opened id answer (err e, w) = (err e, w)
  phone_opened id answer (ok u, w) = (
    ok answer,
    append down now id ConnectionEventType.pairing_started DisconnectReason.none
        (("method", text "phone") ∷ []) w,
  )

  abbrev pub phone_answered :
      ℕ → Result SessionError (String × ℕ) × S → World S → Outcome S (String × ℕ)
  phone_answered id (err e, s) w = (err (WorkerError.session e), with_session s id w)
  phone_answered id (ok answer, s) w = phone_opened id answer (
      set_state down now id InstanceState.pairing
        (set_pairing_until (some answer.1) id (with_session s id w)))

  abbrev pub pair_phone_session : String → Bool → Managed S → World S → Outcome S (String × ℕ)
  pair_phone_session phone replace_active m w =
      let asked = api.pair_phone now phone m.session in
      if is_pairing now m
      then (if replace_active
          then phone_answered m.instance_id asked (
              publish_pairing_ended api c down now m replaced_by_new_attempt
                (cancel_pairing m.instance_id w))
          else (err (WorkerError.session pairing_running), w))
      else phone_answered m.instance_id asked w

  unfoldable pub pair_phone : ℕ → String → Bool → World S → Outcome S (String × ℕ)
  pair_phone id phone replace_active = on_session id (pair_phone_session phone replace_active)

  abbrev pub disconnect_recorded :
      Managed S → Result WorkerError (Unit {0}) × World S → Outcome S InstanceState
  disconnect_recorded m (err e, w) = (err e, w)
  disconnect_recorded m (ok u, w) = (
    ok InstanceState.disconnected,
    hand_back c down now m.instance_id (
        stop m.instance_id (
          emit down now m FrameType.disconnected
            (("reason", text (to_string DisconnectReason.user_requested))
              ∷ ("permanent", flag true)
              ∷ [])
            w)),
  )

  -- Nothing running is already the outcome asked for.
  unfoldable pub disconnect : ℕ → World S → Outcome S InstanceState
  disconnect id w = elim (lookup id w) [
    | none ↦ (ok InstanceState.disconnected, w)
    | some m ↦ disconnect_recorded m (
        record_loss down now id InstanceState.disconnected DisconnectReason.user_requested none
          (with_session (api.disconnect m.session) id (cancel_pairing id w)))
  ]

  abbrev pub logout_reason : Bool → DisconnectReason
  logout_reason true = DisconnectReason.user_requested
  logout_reason false = DisconnectReason.logout_local_only

  abbrev pub identity_cleared : ℕ → World S → World S
  identity_cleared id w = record w {
    instances =
        if down clears_identity then w.instances else clear_device_identity now id w.instances;
  }

  abbrev logout_finished : Managed S → Bool → World S → World S
  logout_finished m removed w =
      let id = m.instance_id in
      let reason = logout_reason removed in
      hand_back c down now id (
        stop id (
          emit down now m FrameType.logged_out
            (("reason", text (to_string reason)) ∷ ("from_phone", flag false) ∷ [])
            (append down now id ConnectionEventType.logged_out reason [] w)))

  abbrev pub logged_out_by : Managed S → Result SessionError Bool × S → World S → Outcome S Bool
  logged_out_by m (err e, s) w = (err (WorkerError.session e), with_session s m.instance_id w)
  logged_out_by m (ok removed, s) w =
      let cleared = identity_cleared m.instance_id (with_session s m.instance_id w) in
      if down clears_identity
      then (err (WorkerError.failed "clear device identity"), cleared)
      else (ok removed, logout_finished m removed cleared)

  -- A session that is offline is connected for the logout, if that is allowed.
  abbrev pub logout_session : Bool → Managed S → World S → Outcome S Bool
  logout_session allow_temporary_connect m w =
      let offline = allow_temporary_connect && not (api.status m.session).connected in
      let s = if offline then (api.connect m.session).1 else m.session in
      logged_out_by m (api.logout s) (cancel_pairing m.instance_id w)

  unfoldable pub logout : ℕ → Bool → World S → Outcome S Bool
  logout id allow_temporary_connect = on_session id (logout_session allow_temporary_connect)

  abbrev pub status_of : Managed S → InstanceRow → StatusSnapshot
  status_of m row = record {
    state = row.connection_state;
    status = api.status m.session;
    connected_at = row.connected_at;
  }

  unfoldable pub status : ℕ → World S → Result WorkerError StatusSnapshot
  status id w = elim (lookup id w) [
    | none ↦ err WorkerError.unknown_instance
    | some m ↦ load_instance down now id w >>= λ row. ok (status_of m row)
  ]
