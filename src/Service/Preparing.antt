-- ===== src/Service/Preparing.antt =====
-- What a connect command prepares before it is sent (internal/domain/services/connection.go).
use zappermeow.Base.{
  ℕ, Bool, true, false, ◌≡◌, refl, ◌∙◌, inl, inr, none, some, Option-cases, arith, ◌==◌,
}
use zappermeow.Domain.Instance.{active, ConnectionIntent}
use zappermeow.Lease.{Manager, ensure, set_desired}
use zappermeow.Lease.Adoption.{IsCandidate}
use zappermeow.Store.Instances.{
  InstanceRow, Instances, instance_id, get_instance, on_instance, with_intent,
  set_connection_intent,
}
use zappermeow.Store.Leases.{
  running, stopped, DesiredState, LeaseRow, Leases, instance_key, get_lease, ensure_lease,
  set_desired_state, with_desired, is_free,
}
use zappermeow.Store.Table.{find, find-update-some, key-find}
use zappermeow.Service.{Call, Plane, prepare}

-- The row that the statement inserts.
abbrev added : ℕ → ℕ → LeaseRow
added now id = record {
  instance_id = id;
  worker_id = none;
  grpc_addr = none;
  generation = 0;
  heartbeat_at = none;
  desired_state = stopped;
  updated_at = now;
}

-- The row is there after it was ensured.
pub ensured-row :
    (now id : ℕ) (t : Leases) → (r : LeaseRow) × (get_lease id (ensure_lease now id t) ≡ some r)
unfolding ensure_lease find
ensured-row now id t = elim (Option-cases (get_lease id t)) [
  | inl missing ↦ (added now id, rw (missing, ensure_lease) (rw (same id) refl))
  | inr (r, there) ↦ (r, rw (there, ensure_lease) there)
]
  where
    same : (n : ℕ) → (n == n) ≡ true
    same n = ground arith

pub wished-row :
    (now id : ℕ) (d : DesiredState) (t : Leases) (r : LeaseRow)
    → get_lease id t ≡ some r
    → get_lease id (set_desired_state now id d t) ≡ some (with_desired now d r)
unfolding set_desired_state
wished-row now id d t r e =
    find-update-some instance_key _ (with_desired now d) (λ x. refl) id t r e
    ∙ ground (arith, key-find instance_key id t r e)

pub intended-row :
    (now id : ℕ) (intent : ConnectionIntent) (clear : Bool) (is : Instances) (i : InstanceRow)
    → get_instance id is ≡ some i
    → get_instance id (set_connection_intent now id intent clear is)
      ≡ some (with_intent now intent clear i)
unfolding on_instance
intended-row now id intent clear is i e =
    find-update-some instance_id _ (with_intent now intent clear) (λ x. refl) id is i e
    ∙ ground (arith, key-find instance_id id is i e)

-- When the writes of a connect command go through, the instance has a lease that should run, and every
-- worker that finds the lease free at any time has it among the sessions it may adopt, also if the
-- instance was parked on a permanent failure before.
pub prepare-IsCandidate :
    (m : Manager) (down : Call → Bool) (now id : ℕ) (p : Plane) (i : InstanceRow)
    → ((c : Call) → down c ≡ false)
    → get_instance id p.instances ≡ some i
    → let q = (prepare m down now id active true running p).1 in
      (r : LeaseRow) × (get_lease id q.leases ≡ some r)
      × (r.desired_state ≡ running)
      × ((other : Manager) (later : ℕ)
          → is_free later other.expiry r ≡ true
          → IsCandidate other later q.instances q.leases id)
unfolding prepare ensure set_desired
prepare-IsCandidate m down now id p i up stored =
    let (r, there) = ensured-row now id p.leases in
    let after = wished-row now id running (ensure_lease now id p.leases) r there in
    let joined = intended-row now id active true p.instances i stored in
    (
      with_desired now running r,
      rw (up Call.ensures, up Call.sets_intent, stored, up Call.sets_desired) after,
      refl,
      λ other later free. record {
        row = with_desired now running r;
        stored = rw (up Call.ensures, up Call.sets_intent, stored, up Call.sets_desired) after;
        free = free;
        instance_row = with_intent now active true i;
        joined = rw (up Call.ensures, up Call.sets_intent, stored) joined;
        retried = refl;
      },
    )
