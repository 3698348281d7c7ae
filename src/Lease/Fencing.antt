-- ===== src/Lease/Fencing.antt =====
-- The generation as a fencing token (internal/lease/lease.go): it only grows, and a holder that was
-- replaced never passes the test again.
use zappermeow.Base.{
  ℕ, ◌+◌, ◌≤◌, ◌<◌, false, List, [], ◌∷◌, some, ◌≡◌, arith, ok, err, Option-cases, inl, inr,
}
use zappermeow.Store.Leases.{LeaseRow, Leases, get_lease, instance_key, acquire_lease}
use zappermeow.Store.Table.{key-find}
use zappermeow.Lease.{Manager, acquire, check_generation, wrong_generation}
use zappermeow.Lease.Trace.{Call, ensures, acquires, step, run, on_row, get_lease-step}

generation-le-on_row :
    (expiry now : ℕ) (c : Call) (r : LeaseRow) → r.generation ≤ (on_row expiry now c r).generation
generation-le-on_row expiry now (ensures x) r = omega arith
generation-le-on_row expiry now (acquires x u addr) r = ground arith
generation-le-on_row expiry now c r = ground arith

-- A lease is never removed, and its generation never falls, whatever is run.
generation-le-run :
    (expiry id : ℕ) (cs : List (ℕ × Call)) (t : Leases) (r : LeaseRow)
    → get_lease id t ≡ some r
    → (r' : LeaseRow) × (get_lease id (run expiry cs t) ≡ some r') × (r.generation ≤ r'.generation)
unfolding run
generation-le-run expiry id [] t r e = (r, e, omega arith)
generation-le-run expiry id ((now, c) ∷ cs) t r e =
    let (r', e', le) =
      generation-le-run expiry id cs (step expiry now c t) (on_row expiry now c r)
        (get_lease-step expiry now c id t r e) in
    (r', e', omega (arith, generation-le-on_row expiry now c r))

-- What a successful acquisition leaves behind.
pub acquire_row :
    (m : Manager) (now id g : ℕ) (t : Leases)
    → (acquire m false now id t).0 ≡ ok g
    → (r r' : LeaseRow) × (get_lease id t ≡ some r)
      × (get_lease id (acquire m false now id t).1 ≡ some r')
      × (r'.generation ≡ g)
      × (r.generation + 1 ≡ g)
unfolding acquire acquire_lease step
acquire_row m now id g t e = elim (Option-cases (get_lease id t)) [
  | inl missing ↦ absurd (ground arith)
  | inr (r, there) ↦ (
    r,
    on_row m.expiry now (acquires id m.worker_id m.grpc_addr) r,
    there,
    get_lease-step m.expiry now (acquires id m.worker_id m.grpc_addr) id t r there,
    ground (arith, key-find instance_key id t r),
    ground arith,
  )
]

fence_outdated :
    (m : Manager) (id g : ℕ) (t : Leases) (r : LeaseRow)
    → get_lease id t ≡ some r
    → g < r.generation
    → check_generation m false id g t ≡ err wrong_generation
unfolding check_generation
fence_outdated m id g t r e lt = ground arith

-- Once anybody has acquired the session again, a holder that passed the fencing test before fails
-- it under its generation for ever after, whatever is run on the table.
pub check_generation-outdated :
    (holder taker : Manager) (now id g g' expiry : ℕ) (t : Leases) (cs : List (ℕ × Call))
    → check_generation holder false id g t ≡ ok tt
    → (acquire taker false now id t).0 ≡ ok g'
    → check_generation holder false id g (run expiry cs (acquire taker false now id t).1)
      ≡ err wrong_generation
unfolding check_generation
check_generation-outdated holder taker now id g g' expiry t cs passed taken =
    let (r, r', there, after, new, old) = acquire_row taker now id g' t taken in
    let (x, e, le) = generation-le-run expiry id cs (acquire taker false now id t).1 r' after in
    fence_outdated holder id g (run expiry cs (acquire taker false now id t).1) x e (ground arith)

-- No generation is ever given out twice: of two acquisitions of a session the later returns the
-- larger one, whoever makes them and whatever is run between them.
pub acquire-increasing :
    (first second : Manager) (now later id g g' expiry : ℕ) (t : Leases) (cs : List (ℕ × Call))
    → (acquire first false now id t).0 ≡ ok g
    → (acquire second false later id (run expiry cs (acquire first false now id t).1)).0 ≡ ok g'
    → g < g'
acquire-increasing first second now later id g g' expiry t cs taken again =
    let (r, r', there, after, new, old) = acquire_row first now id g t taken in
    let (x, e, le) = generation-le-run expiry id cs (acquire first false now id t).1 r' after in
    let (y, y', there', after', new', old') =
      acquire_row second later id g' (run expiry cs (acquire first false now id t).1) again in
    ground arith
