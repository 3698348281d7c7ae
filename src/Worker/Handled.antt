-- ===== src/Worker/Handled.antt =====
-- Every event handler of internal/worker/session.go keeps the sessions' generations and the bound on
-- their number, and none of them acquires a lease.
use zappermeow.Base.{
  ℕ, Bool, true, false, inl, inr, [], ◌∷◌, Option, none, some, Result, ok, err, Bool-cases,
  if◌then◌else◌,
}
use zappermeow.Domain.Instance.{DeviceIdentity}
use zappermeow.Domain.Trail.{ConnectionEventType, Detail, instant}
use zappermeow.Domain.Reason.{DisconnectReason}
use zappermeow.Events.{FrameType}
use zappermeow.Store.Instances.{InstanceRow}
use zappermeow.Store.Leases.{stopped}
use zappermeow.Lease.{set_desired}
use zappermeow.Lease.Trace.{step, sets}
use zappermeow.Lease.Ownership.{Advances, Advances-refl, step-Advances}
use zappermeow.Wa.Session.{
  SessionApi, Event, Loss, pairing_code, pairing_succeeded, pairing_expired, pairing_failed,
  connected, disconnected, passkey_challenge, passkey_code, manual_login_reconnect,
}
use zappermeow.Worker.State.{
  sets_identity, sets_desired, Call, WorkerError, Config, Managed, World, cancel_pairing, set_state,
  record_loss, append, emit, store_snapshot, drop_snapshot, load_instance,
}
use zappermeow.Worker.Sessions.{stop}
use zappermeow.Worker.Handler.{
  device_if_missing, ensure_device_identity, reapplied, reapply_passive_mode, connection_recorded,
  handle_connected, restore_state_after_pairing, handle_pairing_code, handle_pairing_ended,
  handle_passkey_challenge, handle_passkey_code, device_paired, paired_as, handle_pair_success,
  parked, loss_published, loss_recorded, handle_disconnect, handle_manual_login_reconnect, handle,
}
use zappermeow.Worker.Keeps.{
  Keeps, Keeps-refl, Change-trans, stop-Keeps, leases-Keeps, hand_back-Keeps,
}
use zappermeow.Worker.Preserve.{pairing-Keeps}
use zappermeow.Worker.Relink.{passive-Keeps}

module _ {S : Type 0} (api : SessionApi S) (c : Config) (down : Call → Bool) (now : ℕ)
    {owner : ℕ} where
  pub if_world-Keeps :
      (w : World S) (b : Bool) (x y : World S)
      → Keeps owner w x
      → Keeps owner w y
      → Keeps owner w (if b then x else y)
  if_world-Keeps w true x y k h = k
  if_world-Keeps w false x y k h = h

  device-Keeps :
      (id : ℕ) (d : Option DeviceIdentity) (r : Result WorkerError InstanceRow) (w : World S)
      → Keeps owner w (device_if_missing api c down now id d r w)
  device-Keeps id none r w = Keeps-refl w
  device-Keeps id (some d) (err e) w = Keeps-refl w
  device-Keeps id (some d) (ok row) w = if_world-Keeps w _ _ _ (Keeps-refl w) (Keeps-refl w)

  connected-Keeps :
      (m : Managed S) (w : World S) → Keeps owner w (handle_connected api c down now m w)
  unfolding handle_connected ensure_device_identity set_state emit append reapply_passive_mode
  connected-Keeps m w =
      Change-trans
        (device-Keeps m.instance_id (api.status m.session).device
          (load_instance down now m.instance_id w) w)
        (by_write _)
    where
      by_mode :
          (r : Result WorkerError Bool) (v : World S)
          → Keeps owner v (reapplied api c down now m r v)
      by_mode (err e) v = Keeps-refl v
      by_mode (ok passive) v =
          if_world-Keeps v passive _ _ (passive-Keeps api c down now m true v) (Keeps-refl v)

      by_write :
          (r : Result WorkerError (Unit {0}) × World S)
          → Keeps owner r.1 (connection_recorded api c down now m r)
      by_write (err e, v) = Keeps-refl v
      by_write (ok u, v) = by_mode _ (
          emit down now m FrameType.connected (("connected_at", instant now) ∷ []) (
            append down now m.instance_id ConnectionEventType.connected DisconnectReason.none [] v))

  ended_attempt-Keeps :
      (m : Managed S) (type : ConnectionEventType) (frame : FrameType) (detail data_of : Detail)
      (w : World S)
      → Keeps owner w (handle_pairing_ended api c down now m type frame detail data_of w)
  unfolding handle_pairing_ended emit append restore_state_after_pairing set_state drop_snapshot
  ended_attempt-Keeps m type frame detail data_of w =
      pairing-Keeps api c down now none m.instance_id w

  success-Keeps :
      (m : Managed S) (d : Option DeviceIdentity) (w : World S)
      → Keeps owner w (handle_pair_success api c down now m d w)
  unfolding handle_pair_success drop_snapshot emit append
  success-Keeps m d w =
      Change-trans (pairing-Keeps api c down now none m.instance_id w)
        (by_device d (drop_snapshot down now m.instance_id (cancel_pairing m.instance_id w)))
    where
      by_row :
          (d : DeviceIdentity) (r : Result WorkerError InstanceRow) (v : World S)
          → Keeps owner v (device_paired api c down now m d r v)
      by_row d (err e) v = Keeps-refl v
      by_row d (ok row) v = if_world-Keeps v (down sets_identity) _ _ (Keeps-refl v) (Keeps-refl v)

      by_device :
          (d : Option DeviceIdentity) (v : World S) → Keeps owner v (paired_as api c down now m d v)
      by_device none v = Keeps-refl v
      by_device (some d) v = by_row d (load_instance down now m.instance_id v) v

  -- The lease is no longer wanted, then handed back.
  parked-Keeps : (id : ℕ) (w : World S) → Keeps owner w (parked api c down now id w)
  unfolding set_desired step stop
  parked-Keeps id w = Change-trans (stop-Keeps id w) (
      Change-trans
        (leases-Keeps (set_desired c.manager (down sets_desired) now id stopped w.leases).1
          (stop id w) by_failure)
        (hand_back-Keeps c down now id _))
    where
      by_failure :
          Advances owner w.leases
            (set_desired c.manager (down sets_desired) now id stopped w.leases).1
      by_failure = elim (Bool-cases (down sets_desired)) [
        | inl failing ↦ rw failing (Advances-refl owner w.leases)
        | inr working ↦
            rw working (step-Advances c.manager.expiry now owner (sets id stopped) w.leases tt)
      ]

  loss-Keeps :
      (m : Managed S) (l : Loss) (w : World S)
      → Keeps owner w (handle_disconnect api c down now m l w)
  unfolding handle_disconnect record_loss emit append
  loss-Keeps m l w = by_write _
    where
      by_write :
          (r : Result WorkerError (Unit {0}) × World S)
          → Keeps owner r.1 (loss_recorded api c down now m l r)
      by_write (err e, v) = Keeps-refl v
      by_write (ok u, v) =
          if_world-Keeps v l.permanent _ _
            (parked-Keeps m.instance_id (loss_published api c down now m l v)) (Keeps-refl v)

  pub handle-Keeps :
      (m : Managed S) (e : Event) (w : World S) → Keeps owner w (handle api c down now m e w)
  unfolding handle handle_pairing_code handle_passkey_challenge handle_passkey_code
      handle_manual_login_reconnect emit append store_snapshot
  handle-Keeps m (pairing_code method code t) w = Keeps-refl w
  handle-Keeps m (pairing_succeeded d) w = success-Keeps m d w
  handle-Keeps m (pairing_expired method reason) w = ended_attempt-Keeps m _ _ _ _ w
  handle-Keeps m (pairing_failed method failure) w = ended_attempt-Keeps m _ _ _ _ w
  handle-Keeps m connected w = connected-Keeps m w
  handle-Keeps m (disconnected l) w = loss-Keeps m l w
  handle-Keeps m manual_login_reconnect w = Keeps-refl w
  handle-Keeps m (passkey_challenge challenge) w = Keeps-refl w
  handle-Keeps m (passkey_code code) w = Keeps-refl w
