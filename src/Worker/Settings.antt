-- ===== src/Worker/Settings.antt =====
-- internal/worker/supervisor.go and session.go: the settings of a running session, and the passkey
-- step of its pairing.
use zappermeow.Base.{
  ℕ, Bool, true, false, [], ◌∷◌, Option, none, some, String, Result, ok, err, if◌then◌else◌,
}
use zappermeow.Domain.Instance.{InstanceState}
use zappermeow.Domain.Reason.{DisconnectReason, to_string}
use zappermeow.Domain.Trail.{ConnectionEventType, text, flag}
use zappermeow.Events.{FrameType}
use zappermeow.Wa.Session.{SessionApi, SessionError, not_connected, cancelled}
use zappermeow.Worker.State.{
  Call, WorkerError, Config, Managed, World, lookup, is_pairing, with_session, record_loss, append,
  emit,
}
use zappermeow.Worker.Sessions.{start, stop, publish_pairing_ended}
use zappermeow.Worker.Commands.{Outcome, SettingsResult, StatusSnapshot, load_settings, status}

module _ {S : Type 0} (api : SessionApi S) (c : Config) (down : Call → Bool) (now : ℕ) where
  -- A socket that dropped in between leaves the mode to the next connection.
  abbrev passive_answer : Result SessionError (Unit {0}) → Result WorkerError Bool
  passive_answer (ok u) = ok true
  passive_answer (err not_connected) = ok false
  passive_answer (err e) = err (WorkerError.session e)

  unfoldable pub apply_passive_mode : Managed S → Bool → World S → Outcome S Bool
  apply_passive_mode m passive w =
      let (answer, s) = api.set_passive passive m.session in
      if (api.status m.session).connected
      then (passive_answer answer, with_session s m.instance_id w)
      else (ok false, w)

  -- The rebuilt session is dialled, also when `start` has dialled it.
  abbrev pub redialled : Option (Managed S) → World S → Outcome S (Unit {0})
  redialled none w = (err WorkerError.unknown_instance, w)
  redialled (some m) w = (ok tt, record w { dials = m.serial ∷ w.dials })

  abbrev pub rebuilt : ℕ → Result WorkerError (Unit {0}) × World S → Outcome S (Unit {0})
  rebuilt id (err e, w) = (err e, w)
  rebuilt id (ok u, w) = redialled (lookup id w) w

  abbrev pub relink_recorded : Managed S → World S → World S
  relink_recorded m w =
      emit down now m FrameType.disconnected
        (("reason", text (to_string DisconnectReason.proxy_updated)) ∷ [])
        (append down now m.instance_id ConnectionEventType.disconnected
          DisconnectReason.proxy_updated []
          (record_loss down now m.instance_id InstanceState.connecting
            DisconnectReason.proxy_updated none w).1)

  -- The record updates of an attempt that the rebuild ends.
  abbrev pub ended : Managed S → World S → World S
  ended m w = record w {
    trail =
        if is_pairing now m
        then (publish_pairing_ended api c down now m cancelled w).trail
        else w.trail;
    redis =
        if is_pairing now m
        then (publish_pairing_ended api c down now m cancelled w).redis
        else w.redis;
  }

  -- The first half, up to the stop. No lock is held from here to the second half.
  abbrev pub relink_stopped : Managed S → World S → World S
  relink_stopped m w = stop m.instance_id (relink_recorded m (ended m w))

  -- The second half: the session is built again under the same lease and generation.
  abbrev pub relink_started : ℕ → ℕ → World S → Outcome S (Unit {0})
  relink_started id generation w = rebuilt id (start api c down now id generation w)

  -- Both halves, with nothing between them.
  unfoldable pub relink : Managed S → World S → Outcome S (Unit {0})
  relink m w = relink_started m.instance_id m.generation (relink_stopped m w)

  abbrev pub settings_relinked : Outcome S (Unit {0}) → Outcome S SettingsResult
  settings_relinked (err e, w) = (err e, w)
  settings_relinked (ok u, w) = (
    ok (record { state = InstanceState.connecting; reconnecting = true; passive_applied = false }),
    w,
  )

  abbrev state_or_connecting : Result WorkerError StatusSnapshot → InstanceState
  state_or_connecting (err e) = InstanceState.connecting
  state_or_connecting (ok s) = s.state

  abbrev pub settings_applied : ℕ → Outcome S Bool → Outcome S SettingsResult
  settings_applied id (err e, w) = (err e, w)
  settings_applied id (ok applied, w) = (
    ok (record {
      state = state_or_connecting (status api c down now id w);
      reconnecting = false;
      passive_applied = applied;
    }),
    w,
  )

  abbrev pub settings_loaded :
      Bool → Bool → Managed S → Result WorkerError Bool → World S → Outcome S SettingsResult
  settings_loaded proxy_changed passive_changed m (err e) w = (err e, w)
  settings_loaded proxy_changed passive_changed m (ok passive) w =
      if proxy_changed
      then settings_relinked (relink m w)
      else settings_applied m.instance_id
          (if passive_changed then apply_passive_mode m passive w else (ok false, w))

  unfoldable pub apply_settings : ℕ → Bool → Bool → World S → Outcome S SettingsResult
  apply_settings id proxy_changed passive_changed w = elim (lookup id w) [
    | none ↦ (err WorkerError.unknown_instance, w)
    | some m ↦ settings_loaded proxy_changed passive_changed m (load_settings api c down now id w) w
  ]

  abbrev pub response_sent :
      ℕ → Result SessionError (Unit {0}) × S → World S → Outcome S InstanceState
  response_sent id (err e, s) w = (err (WorkerError.session e), with_session s id w)
  response_sent id (ok u, s) w = (ok InstanceState.pairing, with_session s id w)

  unfoldable pub submit_passkey_response : ℕ → String → World S → Outcome S InstanceState
  submit_passkey_response id json w = elim (lookup id w) [
    | none ↦ (err WorkerError.unknown_instance, w)
    | some m ↦ response_sent id (api.send_passkey_response json m.session) w
  ]

  abbrev pub confirmed : ℕ → Outcome S InstanceState → Outcome S InstanceState
  confirmed id (err e, w) = (err e, w)
  confirmed id (ok s, w) = (
    ok s,
    append down now id ConnectionEventType.passkey_confirmed DisconnectReason.none
        (("automatic", flag false) ∷ []) w,
  )

  unfoldable pub confirm_passkey : ℕ → World S → Outcome S InstanceState
  confirm_passkey id w = elim (lookup id w) [
    | none ↦ (err WorkerError.unknown_instance, w)
    | some m ↦ confirmed id (response_sent id (api.confirm_passkey m.session) w)
  ]
