-- ===== src/Store/Leases.antt =====
-- The session_leases table and its statements (internal/store/leases.sql.go, the SQL of
-- internal/store/queries/leases.sql). Worker identities and addresses are only compared and passed
-- on: they are numbers. A generation is a bigint and is taken as unbounded; no statement lowers it.
use zappermeow.Base.{
  ℕ, ◌+◌, Bool, true, false, ◌&&◌, List, ◌∷◌, map, Option, none, some, ltb, leb, ◌==◌,
  if◌then◌else◌, length, select, elem,
}
use zappermeow.Store.Table.{find, update}

-- The values that the column's CHECK admits.
pub data DesiredState : Type 0 where
  running stopped draining : DesiredState

abbrev is_running : DesiredState → Bool
is_running running = true
is_running _ = false

pub record LeaseRow : Type 0 where
  pub instance_id : ℕ
  pub worker_id : Option ℕ
  pub grpc_addr : Option ℕ
  pub generation : ℕ
  pub heartbeat_at : Option ℕ
  pub desired_state : DesiredState
  pub updated_at : ℕ

abbrev pub Leases : Type 0
Leases = List LeaseRow

abbrev pub instance_key : LeaseRow → ℕ
instance_key r = r.instance_id

abbrev pub get_lease : ℕ → Leases → Option LeaseRow
get_lease = find instance_key

-- `worker_id = w`, which NULL never satisfies.
abbrev pub owned_by : ℕ → LeaseRow → Bool
owned_by w r = elim r.worker_id [ none ↦ false | some v ↦ v == w ]

-- `heartbeat_at < now() - expiry`, which NULL never satisfies.
abbrev is_stale : ℕ → ℕ → Option ℕ → Bool
is_stale now expiry none = false
is_stale now expiry (some h) = ltb (h + expiry) now

-- `worker_id IS NULL OR heartbeat_at < now() - expiry`.
abbrev pub is_free : ℕ → ℕ → LeaseRow → Bool
is_free now expiry r = elim r.worker_id [
  | none ↦ true
  | some v ↦ is_stale now expiry r.heartbeat_at
]

-- INSERT … ON CONFLICT DO NOTHING, with the columns' defaults, for an instance that is there: the foreign
-- key refuses any other, which is the caller's to say since the instances are another table.
unfoldable pub ensure_lease : ℕ → ℕ → Leases → Leases
ensure_lease now id t = elim (get_lease id t) [
  | some r ↦ t
  | none ↦
      (record {
        instance_id = id;
        worker_id = none;
        grpc_addr = none;
        generation = 0;
        heartbeat_at = none;
        desired_state = stopped;
        updated_at = now;
      })
      ∷ t
]

abbrev pub with_desired : ℕ → DesiredState → LeaseRow → LeaseRow
with_desired now d r = record r { desired_state = d; updated_at = now }

unfoldable pub set_desired_state : ℕ → ℕ → DesiredState → Leases → Leases
set_desired_state now id d = update (λ r. r.instance_id == id) (with_desired now d)

-- `of_tenant` holds the instances of the tenant.
unfoldable pub set_tenant_desired_state : ℕ → List ℕ → DesiredState → Leases → Leases
set_tenant_desired_state now of_tenant d =
    update (λ r. elem r.instance_id of_tenant) (with_desired now d)

-- The WHERE clause of the acquisition, without the key.
abbrev pub can_acquire : ℕ → ℕ → LeaseRow → Bool
can_acquire now expiry r = is_running r.desired_state && is_free now expiry r

abbrev pub acquired : ℕ → ℕ → ℕ → LeaseRow → LeaseRow
acquired now w addr r = record r {
  worker_id = some w;
  grpc_addr = some addr;
  generation = r.generation + 1;
  heartbeat_at = some now;
  updated_at = now;
}

-- `RETURNING generation` of the row, if it was updated.
abbrev returned_generation : Bool → ℕ → Option ℕ
returned_generation b g = if b then some g else none

unfoldable pub acquire_lease : ℕ → ℕ → ℕ → ℕ → ℕ → Leases → Option ℕ × Leases
acquire_lease now id w addr expiry t = (
  elim (get_lease id t) [
    | none ↦ none
    | some r ↦ returned_generation (can_acquire now expiry r) (r.generation + 1)
  ],
  update (λ r. (r.instance_id == id) && can_acquire now expiry r) (acquired now w addr) t,
)

abbrev pub renews : ℕ → LeaseRow → Bool
renews w r = owned_by w r && is_running r.desired_state

abbrev pub renewed : ℕ → LeaseRow → LeaseRow
renewed now r = record r { heartbeat_at = some now; updated_at = now }

-- RETURNING instance_id, generation.
unfoldable pub heartbeat_leases : ℕ → ℕ → Leases → List (ℕ × ℕ) × Leases
heartbeat_leases now w t = (
  map (λ r. (r.instance_id, r.generation)) (select (renews w) t),
  update (renews w) (renewed now) t,
)

abbrev pub released : ℕ → LeaseRow → LeaseRow
released now r = record r {
  worker_id = none;
  grpc_addr = none;
  heartbeat_at = none;
  updated_at = now;
}

unfoldable pub release_lease : ℕ → ℕ → ℕ → Leases → Leases
release_lease now id w = update (λ r. (r.instance_id == id) && owned_by w r) (released now)

unfoldable pub release_worker_leases : ℕ → ℕ → Leases → Leases
release_worker_leases now w = update (owned_by w) (released now)

unfoldable pub count_leases_by_worker : ℕ → Leases → ℕ
count_leases_by_worker w t = length (select (owned_by w) t)

-- `worker_id IS NOT NULL AND heartbeat_at >= now() - expiry`; NULL as a result reads as not live.
abbrev pub is_live : ℕ → ℕ → LeaseRow → Bool
is_live now expiry r = elim r.worker_id [
  | none ↦ false
  | some v ↦ elim r.heartbeat_at [ none ↦ false | some h ↦ leb now (h + expiry) ]
]
