-- ===== src/Service/Commands.antt =====
-- internal/domain/services/connection.go: the commands that start and end a session.
use zappermeow.Base.{
  ℕ, Bool, true, false, String, Option, none, some, Result, ok, err, if◌then◌else◌,
}
use zappermeow.Domain.Errors.{Error, err_internal, err_not_found}
use zappermeow.Domain.Instance.{ConnectionIntent, InstanceState, active}
use zappermeow.Domain.Instance as Instance
use zappermeow.Events.{Redis}
use zappermeow.Events
use zappermeow.Lease.{Manager}
use zappermeow.Rpc.Client.{ClientError, no_owner, translate_session_error, service_state}
use zappermeow.Service.{
  Call, Plane, prepare, desired_set, sets_intent, sets_desired, reads_instance, sets_state,
  clears_identity,
}
use zappermeow.Store.Instances.{
  InstanceRow, get_instance, set_connection_state, set_connection_intent, clear_device_identity,
}
use zappermeow.Store.Leases.{running, stopped}
use zappermeow.Service.Front.{
  Front, Sessions, Command, Waited, ConnectResponse, PairPhoneResponse, ConnectResult, LogoutResult,
  with_plane, with_redis, with_instances, claim_and_retry,
}

module _ {W : Type 0} (api : Sessions W) (m : Manager) (down : Call → Bool) (now : ℕ) where
  module _ (wait : ℕ → Front W → Option (ℕ × Front W)) (claim_wait : ℕ) where
    -- A command whose session has no owner wakes the fleet.
    abbrev claimed : {A : Type 0} → ℕ → Command W A → Result ClientError A × Front W → Waited W A
    claimed id command (ok a, w) = some (ok a, w)
    claimed id command (err no_owner, w) = claim_and_retry command wait down claim_wait id now w
    claimed id command (err (ClientError.failed t), w) =
        some (err (translate_session_error (ClientError.failed t)), w)
    claimed id command (err (ClientError.rpc s), w) =
        some (err (translate_session_error (ClientError.rpc s)), w)

    -- What Connect and PairPhone write first, then the command.
    abbrev prepared :
        {A : Type 0} → ℕ → Command W A → Front W → Result Error (Unit {0}) × Plane → Waited W A
    prepared id command w (err e, p) = some (err e, with_plane w p)
    prepared id command w (ok _, p) = claimed id command (command now (with_plane w p))

    abbrev connect_result : ConnectResponse → ConnectResult
    connect_result r = record {
      state = service_state r.state;
      intent = active;
      pairing_started = r.pairing_started;
      pairing_expires = r.pairing_expires_at;
    }

    abbrev mapped : {A B : Type 0} → (A → B) → Waited W A → Waited W B
    mapped f none = none
    mapped f (some (ok a, w)) = some (ok (f a), w)
    mapped f (some (err e, w)) = some (err e, w)

    unfoldable pub connect : ℕ → Front W → Waited W ConnectResult
    connect id w =
        mapped connect_result
          (prepared id (api.connect id) w (prepare m down now id active true running w.plane))

    unfoldable pub pair_phone : ℕ → String → Bool → Front W → Waited W PairPhoneResponse
    pair_phone id phone_number replace_active w =
        prepared id (api.pair_phone id phone_number replace_active) w
          (prepare m down now id active true running w.plane)

  abbrev set_state_direct : ℕ → InstanceState → Front W → Result Error InstanceState × Front W
  set_state_direct id state w =
      if down sets_state then (err (err_internal "set connection state"), w) else (
        ok state,
        with_plane w (with_instances (set_connection_state now id state w.plane.instances) w.plane),
      )

  -- Without an owner nothing runs, which is what was asked for.
  abbrev disconnected_answer :
      ℕ → Result ClientError (Unit {0}) × Front W → Result Error InstanceState × Front W
  disconnected_answer id (ok _, w) = (ok Instance.disconnected, w)
  disconnected_answer id (err no_owner, w) = set_state_direct id Instance.disconnected w
  disconnected_answer id (err (ClientError.failed t), w) =
      (err (translate_session_error (ClientError.failed t)), w)
  disconnected_answer id (err (ClientError.rpc s), w) =
      (err (translate_session_error (ClientError.rpc s)), w)

  abbrev disconnect_prepared :
      ℕ → Front W → Result Error (Unit {0}) × Plane → Result Error InstanceState × Front W
  disconnect_prepared id w (err e, p) = (err e, with_plane w p)
  disconnect_prepared id w (ok _, p) =
      disconnected_answer id (api.disconnect id now (with_plane w p))

  unfoldable pub disconnect : ℕ → Front W → Result Error InstanceState × Front W
  disconnect id w =
      disconnect_prepared id w (prepare m down now id Instance.stopped false stopped w.plane)

  -- SetDesired, its failure ignored.
  abbrev stop_desired : ℕ → Front W → Front W
  stop_desired id w = with_plane w (desired_set m down now id stopped w.plane).1

  abbrev logged_out : Bool → LogoutResult
  logged_out remote = record { state = Instance.registered; remote_removed = remote }

  abbrev cleared : ℕ → Front W → Front W
  cleared id w =
      with_plane w (with_instances (clear_device_identity now id w.plane.instances) w.plane)

  -- Offline, the material is dropped here.
  abbrev logout_answer : ℕ → Result ClientError Bool × Front W → Result Error LogoutResult × Front W
  logout_answer id (ok remote, w) = (ok (logged_out remote), stop_desired id w)
  logout_answer id (err no_owner, w) =
      if down clears_identity
      then (err (err_internal "clear device identity"), w)
      else (ok (logged_out false), stop_desired id (cleared id w))
  logout_answer id (err (ClientError.failed t), w) =
      (err (translate_session_error (ClientError.failed t)), w)
  logout_answer id (err (ClientError.rpc s), w) =
      (err (translate_session_error (ClientError.rpc s)), w)

  abbrev intent_stopped : ℕ → Front W → Front W
  intent_stopped id w = with_plane w (
      with_instances (set_connection_intent now id Instance.stopped false w.plane.instances)
        w.plane)

  abbrev logout_paired : ℕ → Option String → Front W → Result Error LogoutResult × Front W
  logout_paired id none w = (ok (logged_out false), w)
  logout_paired id (some jid) w =
      if down sets_intent
      then (err (err_internal "set connection intent"), w)
      else logout_answer id (api.logout id true now (intent_stopped id w))

  abbrev logout_row : ℕ → Option InstanceRow → Front W → Result Error LogoutResult × Front W
  logout_row id none w = (err err_not_found, w)
  logout_row id (some row) w = logout_paired id row.wa_jid w

  unfoldable pub logout : ℕ → Front W → Result Error LogoutResult × Front W
  logout id w =
      if down reads_instance
      then (err (err_internal "get instance"), w)
      else logout_row id (get_instance id w.plane.instances) w

  abbrev terminate_stopped : ℕ → Front W → Front W
  terminate_stopped id w =
      if down sets_desired
      then w
      else let stopped_ = stop_desired id w in
        with_plane stopped_
          (with_redis (Events.stop (down (Call.stops id)) id stopped_.plane.redis) stopped_.plane)

  -- An error of the client other than no owner ends it before the lease is stopped.
  abbrev terminate_answer : ℕ → Result ClientError Bool × Front W → Front W
  terminate_answer id (ok remote, w) = terminate_stopped id w
  terminate_answer id (err no_owner, w) = terminate_stopped id w
  terminate_answer id (err (ClientError.failed t), w) = w
  terminate_answer id (err (ClientError.rpc s), w) = w

  -- Its callers ignore the error that it returns.
  unfoldable pub terminate : ℕ → Front W → Front W
  terminate id w = terminate_answer id (api.logout id true now w)
