-- ===== src/Service.antt =====
-- internal/domain/services/connection.go: what the API writes before a session's command is sent, and
-- what a tenant's suspension and return make of its sessions. The lease manager is one of no worker.
pub mod Tenancy
pub mod Preparing
pub mod Front
pub mod Commands
pub mod Settings
pub mod Retried
pub mod Offline
pub mod Pages
pub mod Status
pub mod Masking
pub mod Cursor
pub mod Paged
use zappermeow.Base.{
  ◌||◌, not, is_some, ℕ, Bool, true, false, List, [], ◌∷◌, Option, none, some, String, Result, ok,
  err, ◌==◌, ◌&&◌, if◌then◌else◌,
}
use zappermeow.Domain.Errors.{Error, err_internal}
use zappermeow.Domain.Instance.{ConnectionIntent, is_active}
use zappermeow.Events.{Redis}
use zappermeow.Events
use zappermeow.Lease.{LeaseError, Manager, ensure, set_desired, set_tenant_desired}
use zappermeow.Store.Instances.{InstanceRow, Instances, get_instance, set_connection_intent}
use zappermeow.Store.Leases.{DesiredState, Leases, running, stopped}

-- The calls that can fail on the way.
pub data Call : Type 0 where
  ensures sets_intent sets_desired sets_tenant lists lists_active : Call
  reads_instance sets_state clears_identity sets_proxy sets_passive appends : Call
  claims stops : ℕ → Call

pub record Plane : Type 0 where
  pub instances : Instances
  pub leases : Leases
  pub redis : Redis

-- `SELECT id FROM instances WHERE tenant_id = $1`.
unfoldable pub list_instance_ids_by_tenant : ℕ → Instances → List ℕ
list_instance_ids_by_tenant tenant [] = []
list_instance_ids_by_tenant tenant (i ∷ is) =
    let rest = list_instance_ids_by_tenant tenant is in
    if i.tenant_id == tenant then i.id ∷ rest else rest

-- … AND connection_intent = 'active'.
unfoldable pub list_active_intent_instances_by_tenant : ℕ → Instances → List ℕ
list_active_intent_instances_by_tenant tenant [] = []
list_active_intent_instances_by_tenant tenant (i ∷ is) =
    let rest = list_active_intent_instances_by_tenant tenant is in
    if (i.tenant_id == tenant) && is_active i.connection_intent then i.id ∷ rest else rest

module _ (m : Manager) (down : Call → Bool) (now : ℕ) where
  abbrev desired_set : ℕ → DesiredState → Plane → Result Error (Unit {0}) × Plane
  desired_set id d p = (
    if down sets_desired then err (err_internal "set desired state") else ok tt,
    record p { leases = (set_desired m (down sets_desired) now id d p.leases).1 },
  )

  -- The row that the statement returns.
  abbrev intent_set :
      ℕ
      → ConnectionIntent
      → Bool
      → DesiredState
      → Option InstanceRow
      → Plane
      → Result Error (Unit {0}) × Plane
  intent_set id intent clear d none p = (err (err_internal "set connection intent"), p)
  intent_set id intent clear d (some row) p =
      desired_set id d
        (record p { instances = set_connection_intent now id intent clear p.instances })

  -- What Connect, PairPhone and Disconnect write first: the lease's row, the intent, the wish. The row's
  -- foreign key refuses an instance that is not there.
  unfoldable pub prepare :
      ℕ → ConnectionIntent → Bool → DesiredState → Plane → Result Error (Unit {0}) × Plane
  prepare id intent clear d p =
      let fails = down ensures || not (is_some (get_instance id p.instances)) in
      let ensured = record p { leases = (ensure m fails now id p.leases).1 } in
      if fails
      then (err (err_internal "ensure lease"), ensured)
      else if down sets_intent
      then (err (err_internal "set connection intent"), ensured)
      else intent_set id intent clear d (get_instance id p.instances) ensured

  -- Each instance is stopped by a message of its own; a failure is only logged.
  unfoldable pub signal_stops : List ℕ → Redis → Redis
  signal_stops [] r = r
  signal_stops (id ∷ ids) r = signal_stops ids (Events.stop (down (stops id)) id r)

  -- Stops at the first failure.
  unfoldable pub resume_each : List ℕ → Plane → Plane
  resume_each [] p = p
  resume_each (id ∷ ids) p =
      let woken = record p {
        leases = (set_desired m (down sets_desired) now id running p.leases).1;
        redis = if down sets_desired then p.redis else Events.claim (down (claims id)) id p.redis;
      } in
      let rest = resume_each ids woken in
      if down sets_desired then woken else if down (claims id) then woken else rest

  unfoldable pub resume_tenant : ℕ → Plane → Plane
  resume_tenant tenant p =
      if down lists_active
      then p
      else resume_each (list_active_intent_instances_by_tenant tenant p.instances) p

  -- The instances of the tenant, for the statement on their leases and for the messages.
  unfoldable pub suspend_tenant : ℕ → Plane → Plane
  suspend_tenant tenant p =
      let ids = list_instance_ids_by_tenant tenant p.instances in
      record p {
        leases = (set_tenant_desired m (down sets_tenant) now ids stopped p.leases).1;
        redis =
            if down sets_tenant
            then p.redis
            else if down lists
            then p.redis
            else signal_stops ids p.redis;
      }

  -- `active` is the test of the status.
  unfoldable pub apply_tenant_status : ℕ → Bool → Plane → Plane
  apply_tenant_status tenant active p =
      if active then resume_tenant tenant p else suspend_tenant tenant p
