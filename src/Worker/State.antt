-- ===== src/Worker/State.antt =====
-- internal/worker/supervisor.go and session.go: the state of a worker, its database and its Redis,
-- and the writes that the operations share. An operation runs at one instant `now` of the database's
-- clock, which is also that of the process; `down` says which of its calls fail.
use zappermeow.Base.{
  ℕ, Bool, false, List, ◌∷◌, Option, none, some, String, Result, ok, err, ltb, ◌==◌, if◌then◌else◌,
}
use zappermeow.Domain.Instance.{InstanceState}
use zappermeow.Domain.Reason.{DisconnectReason}
use zappermeow.Domain.Trail.{ConnectionEventType, ConnectionEvent, Detail}
use zappermeow.Events.{
  FrameType, Redis, Fault, PairingSnapshot, publish, set_pairing, clear_pairing,
}
use zappermeow.Lease.{Manager, LeaseError}
use zappermeow.Store.Instances.{
  Instances, InstanceRow, get_instance, set_connection_state, record_disconnect,
}
use zappermeow.Store.Leases.{Leases}
use zappermeow.Store.Table.{find, update}
use zappermeow.Wa.Session.{SessionError}

-- The calls that can fail on the way to Postgres or Redis.
pub data Call : Type 0 where
  acquires releases releases_all sets_desired heartbeats lists : Call
  reads_instance reads_settings reads_trail sets_state records_disconnect : Call
  sets_identity clears_identity clears_material : Call
  appends : ConnectionEventType → Call
  sets_snapshot clears_snapshot : Call
  publishes : FrameType → Fault → Call

pub data WorkerError : Type 0 where
  unknown_instance draining : WorkerError
  lease : LeaseError → WorkerError
  session : SessionError → WorkerError
  failed : String → WorkerError

pub record Config : Type 0 where
  pub manager : Manager
  pub pairing_window : ℕ
  pub max_sessions : ℕ

-- One owned session. `serial` tells the objects of one instance apart; `pairing` is the deadline of
-- the attempt while it can be cancelled.
pub record Managed (S : Type 0) : Type 0 where
  pub serial : ℕ
  pub instance_id : ℕ
  pub generation : ℕ
  pub session : S
  pub pairing : Option ℕ

-- `dials` holds the goroutines that will reconnect a session, by serial. One whose session was
-- stopped runs under a cancelled context and does nothing.
pub record World (S : Type 0) : Type 0 where
  pub sessions : List (Managed S)
  pub draining : Bool
  pub next_serial : ℕ
  pub dials : List ℕ
  pub instances : Instances
  pub leases : Leases
  pub trail : List ConnectionEvent
  pub redis : Redis

abbrev pub managed_key : {S : Type 0} → Managed S → ℕ
managed_key m = m.instance_id

module _ {S : Type 0} where
  abbrev pub lookup : ℕ → World S → Option (Managed S)
  lookup id w = find managed_key id w.sessions

  -- A mutation of the session's object.
  abbrev pub amend : ℕ → (Managed S → Managed S) → World S → World S
  amend id f w = record w { sessions = update (λ m. m.instance_id == id) f w.sessions }

  abbrev pub is_pairing : ℕ → Managed S → Bool
  is_pairing now m = elim m.pairing [ none ↦ false | some expires_at ↦ ltb now expires_at ]

  -- The zero time, while no attempt is open.
  abbrev pub pairing_expiry : Managed S → ℕ
  pairing_expiry m = elim m.pairing [ none ↦ 0 | some expires_at ↦ expires_at ]

  abbrev pub set_pairing_until : Option ℕ → ℕ → World S → World S
  set_pairing_until until id = amend id (λ m. record m { pairing = until })

  abbrev pub cancel_pairing : ℕ → World S → World S
  cancel_pairing id = set_pairing_until none id

  abbrev pub with_session : S → ℕ → World S → World S
  with_session s id = amend id (λ m. record m { session = s })

-- What a failing write reports.
abbrev pub checked : Bool → String → Result WorkerError (Unit {0})
checked fails what = if fails then err (WorkerError.failed what) else ok tt

abbrev trail_reason : DisconnectReason → Option DisconnectReason
trail_reason DisconnectReason.none = none
trail_reason r = some r

abbrev pub entry : ℕ → ℕ → ConnectionEventType → DisconnectReason → Detail → ConnectionEvent
entry now id type reason detail = record {
  instance_id = id;
  type = type;
  reason = trail_reason reason;
  detail = detail;
  occurred_at = now;
}

module _ {S : Type 0} (down : Call → Bool) (now : ℕ) where
  unfoldable pub set_state : ℕ → InstanceState → World S → Result WorkerError (Unit {0}) × World S
  set_state id s w = (
    checked (down sets_state) "set connection state",
    record w {
      instances =
          if down sets_state then w.instances else set_connection_state now id s w.instances;
    },
  )

  unfoldable pub record_loss :
      ℕ
      → InstanceState
      → DisconnectReason
      → Option ℕ
      → World S
      → Result WorkerError (Unit {0}) × World S
  record_loss id s reason ban w = (
    checked (down records_disconnect) "record disconnect",
    record w {
      instances =
          if down records_disconnect
          then w.instances
          else record_disconnect now id s reason ban w.instances;
    },
  )

  -- The latest entry first. A failure is only logged.
  unfoldable pub append : ℕ → ConnectionEventType → DisconnectReason → Detail → World S → World S
  append id type reason detail w = record w {
    trail = if down (appends type) then w.trail else entry now id type reason detail ∷ w.trail;
  }

  -- The frame carries the generation of the session's lease.
  unfoldable pub emit : Managed S → FrameType → Detail → World S → World S
  emit m type data_of w = record w {
    redis =
        (publish (λ f. down (publishes type f)) now
          (record {
            type = type;
            instance_id = m.instance_id;
            generation = m.generation;
            data_of = data_of;
          })
          w.redis).1;
  }

  unfoldable pub store_snapshot : ℕ → PairingSnapshot → World S → World S
  store_snapshot id s w = record w { redis = set_pairing (down sets_snapshot) now id s w.redis }

  unfoldable pub drop_snapshot : ℕ → World S → World S
  drop_snapshot id w = record w { redis = clear_pairing (down clears_snapshot) id w.redis }

  -- `GetInstanceConnectionByID` and the errors its callers make of it.
  unfoldable pub load_instance : ℕ → World S → Result WorkerError InstanceRow
  load_instance id w =
      if down reads_instance
      then err (WorkerError.failed "load instance")
      else elim (get_instance id w.instances) [
        | none ↦ err WorkerError.unknown_instance
        | some row ↦ ok row
      ]
