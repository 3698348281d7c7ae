-- ===== src/Lease/Invariant.antt =====
-- What every sequence of statements keeps of the table session_leases (internal/store/leases.sql.go),
-- and the two readings of a row that depend on it: live for the API, free for the workers.
use zappermeow.Base.{
  ℕ, ◌<◌, Bool, true, false, not, ◌≡◌, ◌↔◌, inl, inr, refl, sym, subst, List, [], ◌∷◌, none, some,
  In, arith, ok, err, is_some, Option-cases, if◌then◌else◌,
}
use zappermeow.Store.Table.{update}
use zappermeow.Store.Keys.{IsKeyed, In-find, In-update, update-IsKeyed, cons-IsKeyed}
use zappermeow.Store.Leases.{
  running, stopped, LeaseRow, Leases, instance_key, get_lease, owned_by, is_live, is_free, acquired,
  renews, renewed, released, with_desired, ensure_lease, set_desired_state,
  set_tenant_desired_state, acquire_lease, heartbeat_leases, release_lease, release_worker_leases,
}
use zappermeow.Lease.{Manager, Owner, owner, acquire, not_acquired}
use zappermeow.Lease.Trace.{
  Call, ensures, sets, sets_tenant, acquires, heartbeats, releases, releases_all, step, run,
}

-- A row has an owner, an address and a heartbeat, or none of the three; an owned one was acquired.
pub record IsWellFormed (r : LeaseRow) : Type 0 where
  pub addressed : is_some r.grpc_addr ≡ is_some r.worker_id
  pub beating : is_some r.heartbeat_at ≡ is_some r.worker_id
  pub numbered : is_some r.worker_id ≡ true → 0 < r.generation

-- The primary key holds, and every row is well formed.
pub record Inv (t : Leases) : Type 0 where
  pub keyed : IsKeyed instance_key t
  formed : (r : LeaseRow) → In r t → IsWellFormed r

empty-Inv : Inv []
empty-Inv = record { keyed = λ r i. absurd i; formed = λ r i. absurd i }

update-Inv :
    (p : LeaseRow → Bool) (f : LeaseRow → LeaseRow) (t : Leases)
    → ((r : LeaseRow) → (f r).instance_id ≡ r.instance_id)
    → ((r : LeaseRow) → IsWellFormed r → IsWellFormed (if p r then f r else r))
    → Inv t
    → Inv (update p f t)
update-Inv p f t keeps good v = record {
  keyed = update-IsKeyed instance_key p f keeps t v.keyed;
  formed = λ x i.
      let (r, j, e) = In-update p f t x i in subst IsWellFormed (sym e) (good r (v.formed r j));
}

ensure-Inv : (now id : ℕ) (t : Leases) → Inv t → Inv (ensure_lease now id t)
unfolding ensure_lease
ensure-Inv now id t v = elim (Option-cases (get_lease id t)) [
  | inr (x, there) ↦ rw (there, ensure_lease) v
  | inl missing ↦
      rw (missing, ensure_lease)
        (record {
          keyed = cons-IsKeyed instance_key _ t missing v.keyed;
          formed = λ r i. new_or_old r i;
        })
]
  where
    new_row : LeaseRow
    new_row = record {
      instance_id = id;
      worker_id = none;
      grpc_addr = none;
      generation = 0;
      heartbeat_at = none;
      desired_state = stopped;
      updated_at = now;
    }

    new_or_old : (r : LeaseRow) → In r (new_row ∷ t) → IsWellFormed r
    new_or_old r (inl e) = subst IsWellFormed (sym e) (ground arith)
    new_or_old r (inr i) = v.formed r i

step-Inv : (expiry now : ℕ) (c : Call) (t : Leases) → Inv t → Inv (step expiry now c t)
unfolding step set_desired_state set_tenant_desired_state acquire_lease heartbeat_leases
    release_lease release_worker_leases
step-Inv expiry now (ensures id) t v = ensure-Inv now id t v
step-Inv expiry now (sets id d) t v =
    update-Inv _ (with_desired now d) t (λ r. refl) (λ r w. ground arith) v
step-Inv expiry now (sets_tenant ids d) t v =
    update-Inv _ (with_desired now d) t (λ r. refl) (λ r w. ground arith) v
step-Inv expiry now (acquires id w addr) t v =
    update-Inv _ (acquired now w addr) t (λ r. refl) (λ r w. ground arith) v
step-Inv expiry now (heartbeats w) t v =
    update-Inv (renews w) (renewed now) t (λ r. refl) (λ r w. ground arith) v
step-Inv expiry now (releases id w) t v =
    update-Inv _ (released now) t (λ r. refl) (λ r w. ground arith) v
step-Inv expiry now (releases_all w) t v =
    update-Inv (owned_by w) (released now) t (λ r. refl) (λ r w. ground arith) v

run_from-Inv : (expiry : ℕ) (cs : List (ℕ × Call)) (t : Leases) → Inv t → Inv (run expiry cs t)
unfolding run
run_from-Inv expiry [] t v = v
run_from-Inv expiry ((now, c) ∷ cs) t v =
    run_from-Inv expiry cs (step expiry now c t) (step-Inv expiry now c t v)

-- Whatever the workers and the API run, starting from the empty table: no two rows have the same
-- instance, and every row has an owner, an address and a heartbeat together, or none of them.
pub run-Inv : (expiry : ℕ) (cs : List (ℕ × Call)) → Inv (run expiry cs [])
run-Inv expiry cs = run_from-Inv expiry cs [] empty-Inv

live-eq-not-free :
    (now expiry : ℕ) (r : LeaseRow)
    → IsWellFormed r
    → is_live now expiry r ≡ not (is_free now expiry r)
live-eq-not-free now expiry r v = ground arith

-- In every reachable table, for a session that should run: the API sees a live owner exactly when no
-- worker could take the session over at that instant.
owner-live_iff_refused :
    (cs : List (ℕ × Call)) (m : Manager) (now id : ℕ) (o : Owner) (r : LeaseRow)
    → let t = run m.expiry cs [] in
      get_lease id t ≡ some r
      → r.desired_state ≡ running
      → owner m false now id t ≡ ok o
      → (o.live ≡ true) ↔ ((acquire m false now id t).0 ≡ err not_acquired)
unfolding owner acquire acquire_lease
owner-live_iff_refused cs m now id o r stored wanted e =
    let v = run-Inv m.expiry cs in
    let f = v.formed r (In-find instance_key id (run m.expiry cs []) r stored) in
    ground (arith, live-eq-not-free now m.expiry r f)
