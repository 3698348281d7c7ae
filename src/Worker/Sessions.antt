-- ===== src/Worker/Sessions.antt =====
-- internal/worker/supervisor.go: the life of a session under its lease. `start` and `stop` build and
-- end it, `adopt` acquires the lease first, `drop` lets go of a lost one, `shutdown` drains.
use zappermeow.Base.{
  ℕ, ◌+◌, ◌-◌, Bool, true, not, ◌&&◌, List, [], ◌∷◌, map, Option, none, some, String, Result, ok,
  err, ltb, ◌==◌, if◌then◌else◌, length, select, is_some, is_empty,
}
use zappermeow.Domain.Instance.{InstanceState, is_active}
use zappermeow.Domain.Reason.{DisconnectReason, to_string, is_permanent}
use zappermeow.Domain.Trail.{ConnectionEventType, text, flag}
use zappermeow.Events.{FrameType}
use zappermeow.Lease.{LeaseError, acquire, release, release_all}
use zappermeow.Store.Instances.{InstanceRow}
use zappermeow.Wa.Session.{SessionApi, SessionError, PairingExpiry, expiry_text, worker_shutdown}
use zappermeow.Worker.State.{
  Call, WorkerError, Config, Managed, World, lookup, is_pairing, cancel_pairing, with_session,
  set_state, record_loss, append, emit, drop_snapshot, load_instance, acquires, releases,
  releases_all,
}

-- A nil text reads as the empty one.
abbrev pub text_or_empty : Option String → String
text_or_empty none = ""
text_or_empty (some t) = t

-- The session is paired and meant to run.
abbrev pub is_dialled : InstanceRow → Bool
is_dialled row = not (is_empty (text_or_empty row.wa_jid)) && is_active row.connection_intent

module _ {S : Type 0} where
  abbrev pub has_capacity : Config → World S → Bool
  has_capacity c w = not w.draining && ltb (length w.sessions) c.max_sessions

  -- A negative room reads as none.
  abbrev pub capacity : Config → World S → ℕ
  capacity c w = c.max_sessions - length w.sessions

  abbrev pub held : World S → List ℕ
  held w = map (λ m. m.instance_id) w.sessions

  abbrev pub owns : ℕ → World S → Bool
  owns id w = is_some (lookup id w)

  -- `delete(s.sessions, id)`, the session closed and its contexts cancelled.
  unfoldable pub stop : ℕ → World S → World S
  stop id w = record w { sessions = select (λ m. not (m.instance_id == id)) w.sessions }

-- Handing the lease back; its failure is ignored.
unfoldable pub hand_back : {S : Type 0} → Config → (Call → Bool) → ℕ → ℕ → World S → World S
hand_back c down now id w = record w {
  leases = (release c.manager (down releases) now id w.leases).1;
}

module _ {S : Type 0} (api : SessionApi S) (c : Config) (down : Call → Bool) (now : ℕ) where
  -- `s.sessions[id] = managed`, and the goroutine that dials it.
  unfoldable pub put : ℕ → ℕ → S → Bool → World S → World S
  put id generation s dial w = record w {
    sessions =
        (record {
          serial = w.next_serial;
          instance_id = id;
          generation = generation;
          session = s;
          pairing = none;
        })
        ∷ (stop id w).sessions;
    next_serial = w.next_serial + 1;
    dials = if dial then w.next_serial ∷ w.dials else w.dials;
  }

  abbrev pub built :
      ℕ
      → ℕ
      → InstanceRow
      → World S
      → Result SessionError S
      → Result WorkerError (Unit {0}) × World S
  built id generation row w (err e) = (err (WorkerError.session e), w)
  built id generation row w (ok s) = (ok tt, put id generation s (is_dialled row) w)

  abbrev pub loaded_by :
      ℕ → ℕ → World S → Result WorkerError InstanceRow → Result WorkerError (Unit {0}) × World S
  loaded_by id generation w (err e) = (err e, w)
  loaded_by id generation w (ok row) =
      built id generation row w
        (api.new_session now id (text_or_empty row.wa_jid) (text_or_empty row.proxy_url))

  unfoldable pub start : ℕ → ℕ → World S → Result WorkerError (Unit {0}) × World S
  start id generation w = loaded_by id generation w (load_instance down now id w)

  -- What follows the start in `Adopt`.
  abbrev pub adopted :
      ℕ → Result WorkerError (Unit {0}) × World S → Result WorkerError (Unit {0}) × World S
  adopted id (err e, w) = (err e, hand_back c down now id w)
  adopted id (ok u, w) =
      (ok tt, append down now id ConnectionEventType.lease_acquired DisconnectReason.none [] w)

  abbrev pub leased : ℕ → World S → Result LeaseError ℕ → Result WorkerError (Unit {0}) × World S
  leased id w (err e) = (err (WorkerError.lease e), w)
  leased id w (ok generation) = adopted id (start id generation w)

  unfoldable pub adopt : ℕ → World S → Result WorkerError (Unit {0}) × World S
  adopt id w =
      let (generation, after) = acquire c.manager (down acquires) now id w.leases in
      if not (has_capacity c w)
      then (err WorkerError.draining, w)
      else if owns id w
      then (ok tt, w)
      else leased id (record w { leases = after }) generation

  -- The goroutine of `reconnect`, once it runs; both failures are only logged.
  abbrev pub reconnect : Option (Managed S) → World S → World S
  reconnect none w = w
  reconnect (some m) w =
      with_session (api.connect m.session).1 m.instance_id
        (set_state down now m.instance_id InstanceState.connecting w).1

  abbrev pub with_serial : ℕ → List (Managed S) → Option (Managed S)
  with_serial n [] = none
  with_serial n (m ∷ ms) = let rest = with_serial n ms in if m.serial == n then some m else rest

  -- A goroutine runs once.
  unfoldable pub dial : ℕ → World S → World S
  dial n w =
      reconnect (with_serial n w.sessions) (record w { dials = select (λ d. not (d == n)) w.dials })

  unfoldable pub drop : ℕ → World S → World S
  drop id w =
      append down now id ConnectionEventType.lease_lost DisconnectReason.worker_lost [] (stop id w)

  unfoldable pub publish_pairing_ended : Managed S → PairingExpiry → World S → World S
  publish_pairing_ended m reason w =
      let detail = ("reason", text (expiry_text reason)) ∷ [] in
      emit down now m FrameType.pairing_expired detail (
        append down now m.instance_id ConnectionEventType.pairing_expired DisconnectReason.none
          detail (drop_snapshot down now m.instance_id w))

  abbrev stop_one : World S → Managed S → World S
  stop_one w m =
      stop m.instance_id (if is_pairing now m then publish_pairing_ended m worker_shutdown w else w)

  abbrev pub stop_each : List (Managed S) → World S → World S
  stop_each [] w = w
  stop_each (m ∷ ms) w = stop_each ms (stop_one w m)

  abbrev released_all : Result LeaseError (Unit {0}) → Result WorkerError (Unit {0})
  released_all (err e) = err (WorkerError.lease e)
  released_all (ok u) = ok tt

  unfoldable pub shutdown : World S → Result WorkerError (Unit {0}) × World S
  shutdown w =
      let drained = stop_each w.sessions (record w { draining = true }) in
      let (result, after) = release_all c.manager (down releases_all) now drained.leases in
      (released_all result, record drained { leases = after })

  abbrev pub requested : ℕ → DisconnectReason → Managed S → World S → World S
  requested id reason m w =
      emit down now m FrameType.disconnected
        (("reason", text (to_string reason)) ∷ ("permanent", flag (is_permanent reason)) ∷ [])
        (append down now id ConnectionEventType.disconnected reason []
          (record_loss down now id InstanceState.disconnected reason none
            (with_session (api.disconnect m.session) id (cancel_pairing id w))).1)

  abbrev pub stopped_by : ℕ → DisconnectReason → Option (Managed S) → World S → World S
  stopped_by id reason none w = w
  stopped_by id reason (some m) w = hand_back c down now id (stop id (requested id reason m w))

  unfoldable pub stop_on_request : ℕ → DisconnectReason → World S → World S
  stop_on_request id reason w = stopped_by id reason (lookup id w) w
