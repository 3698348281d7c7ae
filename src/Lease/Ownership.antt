-- ===== src/Lease/Ownership.antt =====
-- How a worker's leases change while it does not acquire one: rows stay, generations do not go down,
-- and what it owns afterwards it owned before under the same generation.
use zappermeow.Base.{
  ℕ, ◌≤◌, Bool, true, false, ◌≡◌, ◌≢◌, refl, sym, ap, ◌∙◌, inl, inr, none, some, arith, ◌==◌,
  Option-cases, ok,
}
use zappermeow.Store.Table.{find, find-update, touched, update, key-find}
use zappermeow.Store.Leases.{
  LeaseRow, Leases, instance_key, get_lease, owned_by, with_desired, acquired, renews, renewed,
  released, ensure_lease, set_desired_state, set_tenant_desired_state, acquire_lease,
  heartbeat_leases, release_lease, release_worker_leases,
}
use zappermeow.Lease.{Manager, acquire}
use zappermeow.Lease.Fencing.{acquire_row}
use zappermeow.Lease.Trace.{
  Call, ensures, sets, sets_tenant, acquires, heartbeats, releases, releases_all, step, on_row,
  get_lease-step,
}

pub record Advances (w : ℕ) (t u : Leases) : Type 0 where
  pub forth :
      (id : ℕ) (r : LeaseRow)
      → get_lease id t ≡ some r
      → (r' : LeaseRow) × (get_lease id u ≡ some r') × (r.generation ≤ r'.generation)
  pub back :
      (id : ℕ) (r' : LeaseRow)
      → get_lease id u ≡ some r'
      → r'.worker_id ≡ some w
      → (r : LeaseRow) × (get_lease id t ≡ some r)
        × (r.worker_id ≡ some w)
        × (r.generation ≡ r'.generation)

pub Advances-refl : (w : ℕ) (t : Leases) → Advances w t t
Advances-refl w t = record {
  forth = λ id r e. (r, e, omega arith);
  back = λ id r e o. (r, e, o, refl);
}

pub Advances-trans : (w : ℕ) (t u v : Leases) → Advances w t u → Advances w u v → Advances w t v
Advances-trans w t u v a b = record {
  forth = λ id r e.
      let (r', e', h) = a.forth id r e in
      let (r'', e'', h') = b.forth id r' e' in (r'', e'', omega (arith, h, h'));
  back = λ id r e o.
      let (r', e', o', g) = b.back id r e o in
      let (r'', e'', o'', g') = a.back id r' e' o' in (r'', e'', o'', g' ∙ g);
}

-- The call is not an acquisition by the worker.
abbrev pub IsForeign : ℕ → Call → Type 0
IsForeign w (acquires id v addr) = v ≢ w
IsForeign w _ = Unit

module _ (expiry now w : ℕ) where
  on_row-generation : (c : Call) (r : LeaseRow) → r.generation ≤ (on_row expiry now c r).generation
  on_row-generation (ensures x) r = ground arith
  on_row-generation (sets x d) r = ground arith
  on_row-generation (sets_tenant xs d) r = ground arith
  on_row-generation (acquires x v a) r = ground arith
  on_row-generation (heartbeats v) r = ground arith
  on_row-generation (releases x v) r = ground arith
  on_row-generation (releases_all v) r = ground arith

  on_row-owned :
      (c : Call) (r : LeaseRow)
      → IsForeign w c
      → (on_row expiry now c r).worker_id ≡ some w
      → (r.worker_id ≡ some w) × (r.generation ≡ (on_row expiry now c r).generation)
  on_row-owned (ensures x) r f o = ground arith
  on_row-owned (sets x d) r f o = ground arith
  on_row-owned (sets_tenant xs d) r f o = ground arith
  on_row-owned (acquires x v a) r f o = ground arith
  on_row-owned (heartbeats v) r f o = ground arith
  on_row-owned (releases x v) r f o = ground arith
  on_row-owned (releases_all v) r f o = ground arith

  ensured-unowned :
      (x id : ℕ) (t : Leases) (r' : LeaseRow)
      → get_lease id t ≡ none
      → get_lease id (ensure_lease now x t) ≡ some r'
      → r'.worker_id ≢ some w
  unfolding find ensure_lease
  ensured-unowned x id t r' missing e = elim (Option-cases (get_lease x t)) [
    | inl absent ↦ λ o. ground arith
    | inr (y, there) ↦ λ o. ground arith
  ]

  updated-unowned :
      (p : LeaseRow → Bool) (f : LeaseRow → LeaseRow)
      → ((r : LeaseRow) → (f r).instance_id ≡ r.instance_id)
      → (id : ℕ) (t : Leases) (r' : LeaseRow) → get_lease id t ≡ none
      → get_lease id (update p f t) ≡ some r'
      → r'.worker_id ≢ some w
  updated-unowned p f keeps id t r' missing e o =
      let gone = find-update instance_key p f keeps id t ∙ ap (touched p f) missing in cc

  -- A row that a call adds has no owner.
  fresh-unowned :
      (c : Call) (id : ℕ) (t : Leases) (r' : LeaseRow)
      → get_lease id t ≡ none
      → get_lease id (step expiry now c t) ≡ some r'
      → r'.worker_id ≢ some w
  unfolding step set_desired_state set_tenant_desired_state acquire_lease heartbeat_leases
      release_lease release_worker_leases ensure_lease
  fresh-unowned (ensures x) id t r' missing e = ensured-unowned x id t r' missing e
  fresh-unowned (sets x d) id t r' missing e =
      updated-unowned _ (with_desired now d) (λ r. refl) id t r' missing e
  fresh-unowned (sets_tenant xs d) id t r' missing e =
      updated-unowned _ (with_desired now d) (λ r. refl) id t r' missing e
  fresh-unowned (acquires x v a) id t r' missing e =
      updated-unowned _ (acquired now v a) (λ r. refl) id t r' missing e
  fresh-unowned (heartbeats v) id t r' missing e =
      updated-unowned (renews v) (renewed now) (λ r. refl) id t r' missing e
  fresh-unowned (releases x v) id t r' missing e =
      updated-unowned _ (released now) (λ r. refl) id t r' missing e
  fresh-unowned (releases_all v) id t r' missing e =
      updated-unowned (owned_by v) (released now) (λ r. refl) id t r' missing e

  pub step-Advances : (c : Call) (t : Leases) → IsForeign w c → Advances w t (step expiry now c t)
  step-Advances c t f = record {
    forth = λ id r e.
        (on_row expiry now c r, get_lease-step expiry now c id t r e, on_row-generation c r);
    back = λ id r' e' o. elim (Option-cases (get_lease id t)) [
      | inl missing ↦ absurd (fresh-unowned c id t r' missing e' o)
      | inr (r, e) ↦
          let same = some_lem (sym (get_lease-step expiry now c id t r e) ∙ e') in
          let (o', g) = on_row-owned c r f (ap (λ (x : LeaseRow). x.worker_id) same ∙ o) in
          (r, e, o', g ∙ ap (λ (x : LeaseRow). x.generation) same)
    ];
  }
    where
      some_lem : {x y : LeaseRow} → some x ≡ some y → x ≡ y
      some_lem e = cc

module _ (m : Manager) (now id : ℕ) (t : Leases) where
  -- An acquisition leaves the rows of the other instances alone.
  acquire_up-other :
      (k : ℕ) → (k == id) ≡ false → get_lease k (acquire m false now id t).1 ≡ get_lease k t
  unfolding acquire acquire_lease step
  acquire_up-other k other = elim (Option-cases (get_lease k t)) [
    | inl missing ↦
        find-update instance_key _ (acquired now m.worker_id m.grpc_addr) (λ r. refl) k t
        ∙ ap (touched _ (acquired now m.worker_id m.grpc_addr)) missing
        ∙ sym missing
    | inr (r, there) ↦
        get_lease-step m.expiry now (acquires id m.worker_id m.grpc_addr) k t r there
        ∙ ground (arith, key-find instance_key k t r)
  ]

  pub acquire-other :
      (down : Bool) (k : ℕ)
      → (k == id) ≡ false
      → get_lease k (acquire m down now id t).1 ≡ get_lease k t
  unfolding acquire
  acquire-other true k other = refl
  acquire-other false k other = acquire_up-other k other

  -- The row of an instance just acquired has the generation that was returned.
  pub acquire-row :
      (down : Bool) (g : ℕ)
      → (acquire m down now id t).0 ≡ ok g
      → (r : LeaseRow) × (get_lease id (acquire m down now id t).1 ≡ some r) × (r.generation ≡ g)
  unfolding acquire
  acquire-row true g e = cc
  acquire-row false g e =
      let (r, r', there, there', same, next) = acquire_row m now id g t e in (r', there', same)
