-- ===== src/Lease/Trace.antt =====
-- The statements that the workers and the API run on the lease table, as a sequence in the order in
-- which the database commits them. Every worker runs with the same `expiry`.
use zappermeow.Base.{
  ℕ, ◌&&◌, List, [], ◌∷◌, some, ◌≡◌, refl, arith, ◌==◌, if◌then◌else◌, elem, Option-cases, inl, inr,
}
use zappermeow.Store.Table.{find-update-some, find-cons}
use zappermeow.Store.Leases.{
  DesiredState, LeaseRow, Leases, instance_key, get_lease, owned_by, with_desired, can_acquire,
  acquired, renews, renewed, released, ensure_lease, set_desired_state, set_tenant_desired_state,
  acquire_lease, heartbeat_leases, release_lease, release_worker_leases,
}

pub data Call : Type 0 where
  ensures : ℕ → Call
  sets : ℕ → DesiredState → Call
  sets_tenant : List ℕ → DesiredState → Call
  acquires : (id worker addr : ℕ) → Call
  heartbeats : ℕ → Call
  releases : (id worker : ℕ) → Call
  releases_all : ℕ → Call

module _ (expiry : ℕ) where
  unfoldable pub step : ℕ → Call → Leases → Leases
  step now (ensures id) t = ensure_lease now id t
  step now (sets id d) t = set_desired_state now id d t
  step now (sets_tenant ids d) t = set_tenant_desired_state now ids d t
  step now (acquires id w addr) t = (acquire_lease now id w addr expiry t).1
  step now (heartbeats w) t = (heartbeat_leases now w t).1
  step now (releases id w) t = release_lease now id w t
  step now (releases_all w) t = release_worker_leases now w t

  unfoldable pub run : List (ℕ × Call) → Leases → Leases
  run [] t = t
  run ((now, c) ∷ cs) t = run cs (step now c t)

  -- What a call makes of one row that is there.
  abbrev pub on_row : ℕ → Call → LeaseRow → LeaseRow
  on_row now (ensures id) r = r
  on_row now (sets id d) r = if r.instance_id == id then with_desired now d r else r
  on_row now (sets_tenant ids d) r = if elem r.instance_id ids then with_desired now d r else r
  on_row now (acquires id w addr) r =
      if (r.instance_id == id) && can_acquire now expiry r then acquired now w addr r else r
  on_row now (heartbeats w) r = if renews w r then renewed now r else r
  on_row now (releases id w) r = if (r.instance_id == id) && owned_by w r then released now r else r
  on_row now (releases_all w) r = if owned_by w r then released now r else r

  ensure-keeps :
      (now id k : ℕ) (t : Leases) (r : LeaseRow)
      → get_lease k t ≡ some r
      → get_lease k (ensure_lease now id t) ≡ some r
  unfolding ensure_lease
  ensure-keeps now id k t r e = elim (Option-cases (get_lease id t)) [
    | inl missing ↦ rw (missing, ensure_lease) (rw (find-cons instance_key) (ground arith))
    | inr (x, there) ↦ rw (there, ensure_lease) e
  ]

  -- A row that is there stays, and each call acts on it alone.
  pub get_lease-step :
      (now : ℕ) (c : Call) (k : ℕ) (t : Leases) (r : LeaseRow)
      → get_lease k t ≡ some r
      → get_lease k (step now c t) ≡ some (on_row now c r)
  unfolding step set_desired_state set_tenant_desired_state acquire_lease heartbeat_leases
      release_lease release_worker_leases
  get_lease-step now (ensures id) k t r e = ensure-keeps now id k t r e
  get_lease-step now (sets id d) k t r e =
      find-update-some instance_key _ (with_desired now d) (λ x. refl) k t r e
  get_lease-step now (sets_tenant ids d) k t r e =
      find-update-some instance_key _ (with_desired now d) (λ x. refl) k t r e
  get_lease-step now (acquires id w addr) k t r e =
      find-update-some instance_key _ (acquired now w addr) (λ x. refl) k t r e
  get_lease-step now (heartbeats w) k t r e =
      find-update-some instance_key (renews w) (renewed now) (λ x. refl) k t r e
  get_lease-step now (releases id w) k t r e =
      find-update-some instance_key _ (released now) (λ x. refl) k t r e
  get_lease-step now (releases_all w) k t r e =
      find-update-some instance_key (owned_by w) (released now) (λ x. refl) k t r e
