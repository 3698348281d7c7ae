-- ===== src/Tests/Workers.antt =====
-- The laws of a worker at a concrete one, with a scripted session.
use zappermeow.Base.{
  map, List, ◌&&◌, not, ℕ, ◌+◌, ◌≤◌, Bool, true, false, [], ◌∷◌, some, none, ok, err, ◌≡◌, ◌≢◌, ◌↔◌,
  refl, inl, inr, length, arith,
}
use zappermeow.Domain.Instance.{active, connected, disconnected, InstanceState}
use zappermeow.Domain.Reason.{DisconnectReason}
use zappermeow.Events.{publish, current_seq, set_pairing, clear_pairing, current_deadline}
use zappermeow.Lease.{
  Manager, acquire, check_generation, release, release_all, set_desired, heartbeat, not_acquired,
}
use zappermeow.Lease.Heartbeat.{IsRenewed}
use zappermeow.Lease.Trace.{step}
use zappermeow.Store.Instances.{InstanceRow, on_instance}
use zappermeow.Store.Keys.{IsKeyed}
use zappermeow.Store.Leases.{
  running, LeaseRow, instance_key, get_lease, acquire_lease, release_lease, release_worker_leases,
  set_desired_state, heartbeat_leases,
}
use zappermeow.Store.Table.{find, update}
use zappermeow.Wa.Session.{SessionApi, SessionError, Status, Loss, other}
use zappermeow.Wa.Session
use zappermeow.Worker.State.{
  Call, WorkerError, Config, Managed, World, lookup, set_state, record_loss, append, emit,
  store_snapshot, drop_snapshot, load_instance,
}
use zappermeow.Worker.Sessions.{
  stop, hand_back, put, start, adopt, dial, drop, publish_pairing_ended, shutdown, stop_on_request,
}
use zappermeow.Worker.Commands.{start_pairing, connect, pair_phone, disconnect, logout}
use zappermeow.Worker.Handler.{handle_disconnect, handle}
use zappermeow.Worker.Runtime.{
  adopts, connects, renews, heartbeat_once, claim, reconcile_once, act, run,
}
use zappermeow.Worker.Interleaved.{
  Step, whole, relink_stops, relink_starts, take_step, run_steps, run-sessions,
}
use zappermeow.Worker.Safety.{Run, Owned}
use zappermeow.Worker.Drain.{shutdown-final}
use zappermeow.Worker.Handover.{
  heartbeat_once-IsRenewed, handle-disconnected, disconnect-idempotent, adopt-hands_back,
}

-- Whether the socket is up; no device is stored.
abbrev scripted : Status
scripted = record { connected = true; logged_in = true; device = none }

abbrev pub script : SessionApi Bool
script = record {
  new_session = λ now id jid proxy. ok false;
  qr_channel = λ s. (ok tt, s);
  pair_phone = λ now phone s. (ok ("CODE", now + 60), s);
  connect = λ s. (ok tt, true);
  disconnect = λ s. false;
  logout = λ s. (ok true, false);
  status = λ s. record scripted { connected = s };
  set_passive = λ p s. (ok tt, s);
  send_passkey_response = λ json s. (ok tt, s);
  confirm_passkey = λ s. (ok tt, s);
}

-- No session can be built, as when the store of the devices is away.
abbrev broken : SessionApi Bool
broken = record script { new_session = λ now id jid proxy. err (other "no device store") }

abbrev pub config : Config
config = record {
  manager = record { worker_id = 1; grpc_addr = 91; expiry = 30 };
  pairing_window = 60;
  max_sessions = 2;
}

abbrev pub up : Call → Bool
up call = false

abbrev pub wanted : LeaseRow
wanted = record {
  instance_id = 7;
  worker_id = none;
  grpc_addr = none;
  generation = 4;
  heartbeat_at = none;
  desired_state = running;
  updated_at = 90;
}

abbrev pub resting : InstanceRow
resting = record {
  id = 7;
  tenant_id = 3;
  name = "first";
  connection_state = zappermeow.Domain.Instance.registered;
  connection_intent = active;
  wa_jid = none;
  wa_lid = none;
  phone_number = none;
  push_name = none;
  platform = none;
  business_name = none;
  paired_at = none;
  connected_at = none;
  last_disconnect_at = none;
  last_disconnect_reason = none;
  ban_expires_at = none;
  proxy_url = none;
  passive_mode = false;
  updated_at = 90;
}

abbrev pub idle : World Bool
idle = record {
  sessions = [];
  draining = false;
  next_serial = 0;
  dials = [];
  instances = resting ∷ [];
  leases = wanted ∷ [];
  trail = [];
  redis = record { counters = []; sent = []; pairings = []; claims = []; stops = [] };
}

abbrev adopted_session : Managed Bool
adopted_session = record {
  serial = 0;
  instance_id = 7;
  generation = 5;
  session = false;
  pairing = none;
}

-- The worker that has adopted instance 7.
abbrev pub busy : World Bool
busy = record idle {
  sessions = adopted_session ∷ [];
  next_serial = 1;
  leases =
      (record wanted {
        worker_id = some 1;
        grpc_addr = some 91;
        generation = 5;
        heartbeat_at = some 100;
        updated_at = 100;
      })
      ∷ [];
}

operations : Unit {0}
unfolding find update on_instance publish current_seq set_pairing clear_pairing current_deadline
    acquire check_generation release release_all set_desired heartbeat acquire_lease release_lease
    release_worker_leases set_desired_state heartbeat_leases step set_state record_loss append emit
    store_snapshot drop_snapshot load_instance stop hand_back put start adopt dial drop
    publish_pairing_ended shutdown stop_on_request connect start_pairing pair_phone disconnect
    logout handle handle_disconnect heartbeat_once claim reconcile_once act run run_steps take_step
operations = tt

abbrev day : Run
day = (up, 100, adopts 7) ∷ (up, 101, connects 7) ∷ (up, 110, renews) ∷ []

-- Three instances, at a limit of two sessions.
abbrev crowded : World Bool
crowded = record idle {
  instances = resting ∷ record resting { id = 8 } ∷ record resting { id = 9 } ∷ [];
  leases = map (λ id. record wanted { instance_id = id }) (7 ∷ 8 ∷ 9 ∷ []);
}

-- While the session of 7 is relinked, a third instance is adopted.
abbrev relinked : List ((Call → Bool) × ℕ × Step)
relinked =
    (up, 100, whole (adopts 7))
    ∷ (up, 101, whole (adopts 8))
    ∷ (up, 102, relink_stops 7)
    ∷ (up, 103, whole (adopts 9))
    ∷ (up, 104, relink_starts 7 5)
    ∷ []

-- The limit is exceeded by one.
crowded_sessions : length (run_steps script config relinked crowded).sessions ≡ 3
unfolding operations
crowded_sessions = refl

abbrev relinked_end : World Bool
relinked_end = run_steps script config relinked crowded

run-sessions_example :
    let m = record adopted_session { serial = 3 } in
    (length relinked_end.sessions ≤ 2 + 1)
    × (lookup 7 relinked_end ≡ some m)
    × ((check_generation config.manager false 7 5 relinked_end.leases ≡ ok tt)
        ↔ Owned 1 7 relinked_end.leases)
unfolding operations
run-sessions_example =
    run-sessions script config relinked crowded (record adopted_session { serial = 3 }) refl
      (tt, (tt, (tt, (tt, ((_, refl, omega arith, λ o. refl), tt))))) (inl refl)

shutdown-final_example :
    let v = run script config ((up, 130, adopts 7) ∷ []) (shutdown script config up 120 busy).1 in
    (v.sessions ≡ [])
    × ((faults : Call → Bool) (later id : ℕ)
        → adopt script config faults later id v ≡ (err WorkerError.draining, v))
    × ((id : ℕ) → Owned 1 id v.leases → ⊥)
unfolding operations
shutdown-final_example =
    shutdown-final script config up 120 busy ((up, 130, adopts 7) ∷ []) refl (tt, tt)

busy-IsKeyed : IsKeyed instance_key busy.leases
unfolding find
busy-IsKeyed r (inl e) = ground arith
busy-IsKeyed r (inr i) = absurd i

heartbeat_once-IsRenewed_example : (g : ℕ) × IsRenewed config.manager 110 7 g busy.leases
unfolding operations
heartbeat_once-IsRenewed_example =
    heartbeat_once-IsRenewed script config up 110 busy adopted_session refl busy-IsKeyed (inl refl)

abbrev replaced : Loss
replaced = record {
  reason = DisconnectReason.session_replaced;
  permanent = true;
  ban_expires_at = none;
  stream_error_code = "";
}

handle-disconnected_example :
    let v =
      handle script config up 115 adopted_session
        (zappermeow.Wa.Session.disconnected replaced)
        busy in
    ((true && not false) ≡ true
      → (lookup 7 v ≡ none)
        × ((other : Manager) (later : ℕ)
            → (acquire other false later 7 v.leases).0 ≡ err not_acquired))
    × ((true && not false) ≡ false → (v.sessions ≡ busy.sessions) × (v.leases ≡ busy.leases))
unfolding operations
handle-disconnected_example =
    handle-disconnected script config up 115 adopted_session replaced busy refl refl

disconnect-idempotent_example :
    let v = (disconnect script config up 120 7 busy).1 in
    (lookup 7 v ≡ none) × (disconnect script config up 130 7 v ≡ (ok InstanceState.disconnected, v))
unfolding operations
disconnect-idempotent_example =
    disconnect-idempotent script config up up 120 130 7 busy InstanceState.disconnected refl

adopt-hands_back_example :
    let v = (adopt broken config up 100 7 idle).1 in
    (v.sessions ≡ [])
    × (false ≡ false → (r : LeaseRow) → get_lease 7 v.leases ≡ some r → r.worker_id ≢ some 1)
    × (false ≡ true → v.leases ≡ (acquire config.manager false 100 7 idle.leases).1)
unfolding operations
adopt-hands_back_example =
    adopt-hands_back broken config up 100 7 5 idle (WorkerError.session (other "no device store"))
      refl refl refl refl
