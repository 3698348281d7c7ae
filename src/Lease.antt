-- ===== src/Lease.antt =====
-- internal/lease/lease.go: the manager of the leases of one worker. A method takes the clock of the
-- database and whether the statement fails on the way (`down`); a failed statement changes nothing.
pub mod Trace
pub mod Exclusive
pub mod Fencing
pub mod Adoption
pub mod Heartbeat
pub mod Invariant
pub mod Ownership
use zappermeow.Base.{
  ℕ, Bool, true, false, ◌&&◌, List, Option, none, some, Result, ok, err, String, ◌==◌,
  if◌then◌else◌,
}
use zappermeow.Domain.Reason.{permanent_reason_list}
use zappermeow.Store.Leases.{
  DesiredState, LeaseRow, Leases, get_lease, owned_by, ensure_lease, set_desired_state,
  set_tenant_desired_state, acquire_lease, heartbeat_leases, release_lease, release_worker_leases,
  count_leases_by_worker, is_live,
}
use zappermeow.Store.Instances.{Instances}
use zappermeow.Store.Adoptable.{list_adoptable_leases}

pub data LeaseError : Type 0 where
  not_acquired wrong_generation : LeaseError
  failed : String → LeaseError

pub record Manager : Type 0 where
  pub worker_id : ℕ
  pub grpc_addr : ℕ
  pub expiry : ℕ

abbrev pub Outcome : Type 0 → Type 0
Outcome A = Result LeaseError A × Leases

-- A statement with no result.
abbrev exec : Bool → String → Leases → Leases → Outcome (Unit {0})
exec down what before after = if down then (err (failed what), before) else (ok tt, after)

-- The answer to a query that may find no row.
abbrev or_not_acquired : Option ℕ → Result LeaseError ℕ
or_not_acquired none = err not_acquired
or_not_acquired (some g) = ok g

module _ (m : Manager) (down : Bool) where
  unfoldable pub ensure : ℕ → ℕ → Leases → Outcome (Unit {0})
  ensure now id t = exec down "ensure lease" t (ensure_lease now id t)

  unfoldable pub set_desired : ℕ → ℕ → DesiredState → Leases → Outcome (Unit {0})
  set_desired now id d t = exec down "set desired state" t (set_desired_state now id d t)

  unfoldable pub set_tenant_desired : ℕ → List ℕ → DesiredState → Leases → Outcome (Unit {0})
  set_tenant_desired now of_tenant d t =
      exec down "set tenant desired state" t (set_tenant_desired_state now of_tenant d t)

  unfoldable pub acquire : ℕ → ℕ → Leases → Outcome ℕ
  acquire now id t =
      let (generation, after) = acquire_lease now id m.worker_id m.grpc_addr m.expiry t in
      if down then (err (failed "acquire lease"), t) else (or_not_acquired generation, after)

  unfoldable pub heartbeat : ℕ → Leases → Outcome (List (ℕ × ℕ))
  heartbeat now t =
      let (held, after) = heartbeat_leases now m.worker_id t in
      if down then (err (failed "heartbeat leases"), t) else (ok held, after)

  unfoldable pub release : ℕ → ℕ → Leases → Outcome (Unit {0})
  release now id t = exec down "release lease" t (release_lease now id m.worker_id t)

  unfoldable pub release_all : ℕ → Leases → Outcome (Unit {0})
  release_all now t = exec down "release worker leases" t (release_worker_leases now m.worker_id t)

  unfoldable pub adoptable : ℕ → ℕ → Instances → Leases → Result LeaseError (List ℕ)
  adoptable now limit instances t =
      if down
      then err (failed "list adoptable leases")
      else ok (list_adoptable_leases now m.expiry permanent_reason_list limit instances t)

  unfoldable pub count : Leases → Result LeaseError ℕ
  count t = if down then err (failed "count leases") else ok (count_leases_by_worker m.worker_id t)

  abbrev fence : ℕ → LeaseRow → Result LeaseError (Unit {0})
  fence generation r =
      if r.generation == generation
      then (if owned_by m.worker_id r then ok tt else err wrong_generation)
      else err wrong_generation

  -- The fencing test of every command.
  unfoldable pub check_generation : ℕ → ℕ → Leases → Result LeaseError (Unit {0})
  check_generation id generation t =
      if down
      then err (failed "check generation")
      else elim (get_lease id t) [ none ↦ err not_acquired | some r ↦ fence generation r ]

-- The holder that the API dials; no address reads as 0.
pub record Owner : Type 0 where
  pub grpc_addr : ℕ
  pub generation : ℕ
  pub live : Bool

abbrev addr_or_empty : Option ℕ → ℕ
addr_or_empty none = 0
addr_or_empty (some a) = a

module _ (m : Manager) (down : Bool) where
  abbrev owner_of : ℕ → LeaseRow → Owner
  owner_of now r = record {
    grpc_addr = addr_or_empty r.grpc_addr;
    generation = r.generation;
    live = is_live now m.expiry r;
  }

  unfoldable pub owner : ℕ → ℕ → Leases → Result LeaseError Owner
  owner now id t =
      if down
      then err (failed "get lease owner")
      else elim (get_lease id t) [ none ↦ err not_acquired | some r ↦ ok (owner_of now r) ]
