-- ===== src/Worker/Handler.antt =====
-- internal/worker/session.go: what each event of a session makes of the database, the trail and the
-- frames. The pump handles the events of one session one after the other.
use zappermeow.Base.{
  ℕ, Bool, true, not, ◌&&◌, ◌||◌, [], ◌∷◌, ◌++◌, Option, none, some, String, Result, ok, err,
  if◌then◌else◌, is_empty, same_text,
}
use zappermeow.Domain.Instance.{InstanceState, DeviceIdentity}
use zappermeow.Domain.Reason.{DisconnectReason, to_string}
use zappermeow.Domain.Trail.{ConnectionEventType, Detail, text, flag, instant, device}
use zappermeow.Events.{FrameType, PairingPhase}
use zappermeow.Lease.{set_desired}
use zappermeow.Store.Instances.{InstanceRow, set_device_identity, clear_device_material}
use zappermeow.Store.Leases.{stopped}
use zappermeow.Wa.Session.{
  SessionApi, Event, Loss, PairingMethod, pairing_code, pairing_succeeded, pairing_expired,
  pairing_failed, connected, disconnected, passkey_challenge, passkey_code, manual_login_reconnect,
  method_text, failure_text, expiry_text, by_qr,
}
use zappermeow.Worker.State.{
  Call, WorkerError, Config, Managed, World, pairing_expiry, cancel_pairing, set_state, record_loss,
  append, emit, store_snapshot, drop_snapshot, load_instance, reads_trail, sets_identity,
  clears_material, sets_desired,
}
use zappermeow.Worker.Sessions.{stop, hand_back, text_or_empty}
use zappermeow.Worker.Commands.{is_paired, load_settings}
use zappermeow.Worker.Settings.{apply_passive_mode}
use zappermeow.Worker.Losses.{
  last_paired_phone, state_of_loss, event_of_loss, frame_of_loss, ban_detail, code_detail,
  nested_code, special_data, is_remote_logout,
}

module _ {S : Type 0} (api : SessionApi S) (c : Config) (down : Call → Bool) (now : ℕ) where
  abbrev device_written : ℕ → DeviceIdentity → World S → World S
  device_written id d w = record w {
    instances =
        if down sets_identity then w.instances else set_device_identity now id d w.instances;
  }

  -- The row takes the session's device if it has none.
  abbrev pub device_if_missing :
      ℕ → Option DeviceIdentity → Result WorkerError InstanceRow → World S → World S
  device_if_missing id none row w = w
  device_if_missing id (some d) (err e) w = w
  device_if_missing id (some d) (ok row) w =
      if is_empty d.jid || not (is_empty (text_or_empty row.wa_jid))
      then w
      else device_written id d w

  unfoldable pub ensure_device_identity : Managed S → World S → World S
  ensure_device_identity m w =
      device_if_missing m.instance_id (api.status m.session).device
        (load_instance down now m.instance_id w) w

  abbrev pub reapplied : Managed S → Result WorkerError Bool → World S → World S
  reapplied m (err e) w = w
  reapplied m (ok passive) w = if passive then (apply_passive_mode api c down now m true w).1 else w

  unfoldable pub reapply_passive_mode : Managed S → World S → World S
  reapply_passive_mode m w = reapplied m (load_settings api c down now m.instance_id w) w

  -- A failed write of the state ends the handler.
  abbrev pub connection_recorded : Managed S → Result WorkerError (Unit {0}) × World S → World S
  connection_recorded m (err e, w) = w
  connection_recorded m (ok u, w) = reapply_passive_mode m (
      emit down now m FrameType.connected (("connected_at", instant now) ∷ [])
        (append down now m.instance_id ConnectionEventType.connected DisconnectReason.none [] w))

  unfoldable pub handle_connected : Managed S → World S → World S
  handle_connected m w =
      connection_recorded m
        (set_state down now m.instance_id InstanceState.connected (ensure_device_identity m w))

  unfoldable pub restore_state_after_pairing : Managed S → World S → World S
  restore_state_after_pairing m w =
      (set_state down now m.instance_id
        (if is_paired (api.status m.session)
          then InstanceState.disconnected
          else InstanceState.registered)
        w).1

  unfoldable pub handle_pairing_code : Managed S → PairingMethod → String → ℕ → World S → World S
  handle_pairing_code m method code expires_at w =
      emit down now m FrameType.pairing_code
        (("method", text (method_text method))
          ∷ ("code", text code)
          ∷ ("expires_at", instant expires_at)
          ∷ [])
        (store_snapshot down now m.instance_id
          (record {
            method = method_text method;
            phase = PairingPhase.qr;
            code = code;
            expires_at = expires_at;
            challenge = "";
          })
          w)

  unfoldable pub handle_pairing_ended :
      Managed S → ConnectionEventType → FrameType → Detail → Detail → World S → World S
  handle_pairing_ended m type frame detail data_of w =
      let id = m.instance_id in
      emit down now m frame data_of (
        append down now id type DisconnectReason.none detail
          (restore_state_after_pairing m (drop_snapshot down now id (cancel_pairing id w))))

  unfoldable pub handle_passkey_challenge : Managed S → String → World S → World S
  handle_passkey_challenge m challenge w =
      emit down now m FrameType.pairing_passkey_challenge
        (("public_key", text challenge) ∷ ("attempt_expires_at", instant (pairing_expiry m)) ∷ [])
        (append down now m.instance_id ConnectionEventType.passkey_challenge DisconnectReason.none
          []
          (store_snapshot down now m.instance_id
            (record {
              method = method_text by_qr;
              phase = PairingPhase.passkey_challenge;
              code = "";
              expires_at = pairing_expiry m;
              challenge = challenge;
            })
            w))

  unfoldable pub handle_passkey_code : Managed S → String → World S → World S
  handle_passkey_code m code w =
      emit down now m FrameType.pairing_passkey_code
        (("code", text code) ∷ ("attempt_expires_at", instant (pairing_expiry m)) ∷ [])
        (append down now m.instance_id ConnectionEventType.passkey_responded DisconnectReason.none
          []
          (store_snapshot down now m.instance_id
            (record {
              method = method_text by_qr;
              phase = PairingPhase.passkey_code;
              code = code;
              expires_at = pairing_expiry m;
              challenge = "";
            })
            w))

  abbrev trail_phone : ℕ → World S → String
  trail_phone id w = if down reads_trail then "" else text_or_empty (last_paired_phone id w.trail)

  -- The number on the row, else the one that the trail remembers.
  abbrev previous_phone : ℕ → InstanceRow → World S → String
  previous_phone id row w =
      let stored = text_or_empty row.phone_number in
      if is_empty stored then trail_phone id w else stored

  unfoldable pub number_changed : ℕ → InstanceRow → DeviceIdentity → World S → Bool
  number_changed id row d w =
      let previous = previous_phone id row w in
      not (is_empty previous) && not (same_text previous d.phone_number)

  abbrev number_recorded : ℕ → String → Bool → DeviceIdentity → World S → World S
  number_recorded id previous changed d w = record w {
    trail =
        if changed
        then (append down now id ConnectionEventType.number_changed DisconnectReason.none
            (("previous_phone", text previous) ∷ ("new_phone", text d.phone_number) ∷ []) w).trail
        else w.trail;
  }

  abbrev pairing_recorded : Managed S → String → Bool → DeviceIdentity → World S → World S
  pairing_recorded m previous changed d w =
      emit down now m FrameType.pairing_succeeded
        (("device", device d.jid d.phone_number d.push_name d.platform)
          ∷ ("number_changed", flag changed)
          ∷ [])
        (number_recorded m.instance_id previous changed d (
          append down now m.instance_id ConnectionEventType.pairing_succeeded DisconnectReason.none
            (("phone_number", text d.phone_number) ∷ []) w))

  abbrev pub device_paired :
      Managed S → DeviceIdentity → Result WorkerError InstanceRow → World S → World S
  device_paired m d (err e) w = w
  device_paired m d (ok row) w =
      if down sets_identity
      then w
      else pairing_recorded m (previous_phone m.instance_id row w)
          (number_changed m.instance_id row d w) d (device_written m.instance_id d w)

  abbrev pub paired_as : Managed S → Option DeviceIdentity → World S → World S
  paired_as m none w = w
  paired_as m (some d) w = device_paired m d (load_instance down now m.instance_id w) w

  unfoldable pub handle_pair_success : Managed S → Option DeviceIdentity → World S → World S
  handle_pair_success m d w =
      paired_as m d (drop_snapshot down now m.instance_id (cancel_pairing m.instance_id w))

  abbrev material_cleared : ℕ → DisconnectReason → World S → World S
  material_cleared id reason w = record w {
    instances =
        if is_remote_logout reason && not (down clears_material)
        then clear_device_material now id w.instances
        else w.instances;
  }

  -- Nothing recovers the session here: it stops, and its lease is no longer wanted nor held.
  abbrev pub parked : ℕ → World S → World S
  parked id w =
      let stopped_world = stop id w in
      hand_back c down now id (record stopped_world {
        leases = (set_desired c.manager (down sets_desired) now id stopped stopped_world.leases).1;
      })

  abbrev pub loss_published : Managed S → Loss → World S → World S
  loss_published m l w =
      emit down now m (frame_of_loss l.reason)
        ((("reason", text (to_string l.reason))
            ∷ ("permanent", flag l.permanent)
            ∷ ("at", instant now)
            ∷ [])
          ++ (nested_code l.stream_error_code ++ special_data l))
        (append down now m.instance_id (event_of_loss l.reason) l.reason
          (ban_detail l.ban_expires_at ++ code_detail l.stream_error_code)
          (material_cleared m.instance_id l.reason w))

  abbrev pub loss_recorded : Managed S → Loss → Result WorkerError (Unit {0}) × World S → World S
  loss_recorded m l (err e, w) = w
  loss_recorded m l (ok u, w) =
      let published = loss_published m l w in
      if l.permanent then parked m.instance_id published else published

  unfoldable pub handle_disconnect : Managed S → Loss → World S → World S
  handle_disconnect m l w =
      loss_recorded m l
        (record_loss down now m.instance_id (state_of_loss l) l.reason l.ban_expires_at w)

  unfoldable pub handle_manual_login_reconnect : Managed S → World S → World S
  handle_manual_login_reconnect m w =
      let recorded =
        append down now m.instance_id ConnectionEventType.manual_login_reconnect
          DisconnectReason.none [] w in
      record recorded { dials = m.serial ∷ recorded.dials }

  unfoldable pub handle : Managed S → Event → World S → World S
  handle m (pairing_code method code expires_at) = handle_pairing_code m method code expires_at
  handle m (pairing_succeeded d) = handle_pair_success m d
  handle m (pairing_expired method reason) =
      handle_pairing_ended m ConnectionEventType.pairing_expired FrameType.pairing_expired
        (("reason", text (expiry_text reason)) ∷ [])
        (("method", text (method_text method)) ∷ ("reason", text (expiry_text reason)) ∷ [])
  handle m (pairing_failed method failure) =
      handle_pairing_ended m ConnectionEventType.pairing_failed FrameType.pairing_failed
        (("reason", text (failure_text failure)) ∷ [])
        (("reason", text (failure_text failure)) ∷ [])
  handle m connected = handle_connected m
  handle m (disconnected l) = handle_disconnect m l
  handle m manual_login_reconnect = handle_manual_login_reconnect m
  handle m (passkey_challenge challenge) = handle_passkey_challenge m challenge
  handle m (passkey_code code) = handle_passkey_code m code
