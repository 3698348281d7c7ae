-- ===== src/Lease/Exclusive.antt =====
-- Exclusive ownership (internal/lease/lease.go): while the owner renews in time, nobody takes over.
use zappermeow.Base.{
  ℕ, ◌+◌, ◌≤◌, true, false, List, [], ◌∷◌, some, ◌≡◌, ◌≢◌, arith, ◌==◌, if◌then◌else◌, elem,
}
use zappermeow.Store.Leases.{running, LeaseRow, Leases, get_lease, acquire_lease}
use zappermeow.Lease.{Manager, Owner, owner, owner_of, acquire, check_generation, not_acquired}
use zappermeow.Base.{ok, err}
use zappermeow.Lease.Trace.{
  Call, ensures, sets, sets_tenant, acquires, heartbeats, releases, releases_all, step, run, on_row,
  get_lease-step,
}

-- The row of a session that should run, renewed at `h` by `w` under generation `g`.
pub record HeldBy (w g h id : ℕ) (r : LeaseRow) : Type 0 where
  pub keyed : r.instance_id ≡ id
  pub owner : r.worker_id ≡ some w
  pub fenced : r.generation ≡ g
  pub renewed : r.heartbeat_at ≡ some h
  pub wanted : r.desired_state ≡ running

-- The call is neither the owner's own release nor a stop of the session.
abbrev pub Keeps : ℕ → ℕ → Call → Type 0
Keeps w id (releases x v) = (x ≡ id) → v ≢ w
Keeps w id (releases_all v) = v ≢ w
Keeps w id (sets x d) = x ≡ id → d ≡ running
Keeps w id (sets_tenant xs d) = elem id xs ≡ true → d ≡ running
Keeps w id _ = Unit

-- When the owner's row was renewed last.
abbrev pub renewal : ℕ → ℕ → ℕ → Call → ℕ
renewal w h now (heartbeats v) = if v == w then now else h
renewal w h now _ = h

-- The worker does not get the session.
abbrev pub IsRefused : Manager → ℕ → ℕ → Leases → Type 0
IsRefused m now id t = (acquire m false now id t).0 ≡ err not_acquired

-- The worker passes the fencing test under the generation.
abbrev pub IsFenced : Manager → ℕ → ℕ → Leases → Type 0
IsFenced m id g t = check_generation m false id g t ≡ ok tt

-- The API reads a live owner of that generation.
abbrev pub IsLive : Manager → ℕ → ℕ → ℕ → Leases → Type 0
IsLive m now id g t =
    (o : Owner) × (owner m false now id t ≡ ok o) × (o.live ≡ true) × (o.generation ≡ g)

module _ (expiry : ℕ) (w id : ℕ) where
  -- Each call commits before the owner's last renewal expires.
  abbrev pub InTime : ℕ → List (ℕ × Call) → Type 0
  InTime h [] = Unit
  InTime h ((now, c) ∷ cs) = (now ≤ h + expiry) × Keeps w id c × InTime (renewal w h now c) cs

  abbrev pub last_renewal : ℕ → List (ℕ × Call) → ℕ
  last_renewal h [] = h
  last_renewal h ((now, c) ∷ cs) = last_renewal (renewal w h now c) cs

  on_row-HeldBy :
      (g h now : ℕ) (c : Call) (r : LeaseRow)
      → HeldBy w g h id r
      → now ≤ h + expiry
      → Keeps w id c
      → HeldBy w g (renewal w h now c) id (on_row expiry now c r)
  on_row-HeldBy g h now (ensures x) r v t k = v
  on_row-HeldBy g h now (sets x d) r v t k = ground arith
  on_row-HeldBy g h now (sets_tenant xs d) r v t k = ground arith
  on_row-HeldBy g h now (acquires x u addr) r v t k = ground arith
  on_row-HeldBy g h now (heartbeats u) r v t k = ground arith
  on_row-HeldBy g h now (releases x u) r v t k = ground arith
  on_row-HeldBy g h now (releases_all u) r v t k = ground arith

  run-HeldBy :
      (g h : ℕ) (cs : List (ℕ × Call)) (t : Leases) (r : LeaseRow)
      → get_lease id t ≡ some r
      → HeldBy w g h id r
      → InTime h cs
      → (r' : LeaseRow) × (get_lease id (run expiry cs t) ≡ some r')
        × HeldBy w g (last_renewal h cs) id r'
  unfolding run
  run-HeldBy g h [] t r e v i = (r, e, v)
  run-HeldBy g h ((now, c) ∷ cs) t r e v (on_time, keeps, later) =
      run-HeldBy g (renewal w h now c) cs (step expiry now c t) (on_row expiry now c r)
        (get_lease-step expiry now c id t r e) (on_row-HeldBy g h now c r v on_time keeps) later

  held-IsRefused :
      (m : Manager) (now g h : ℕ) (t : Leases) (r : LeaseRow)
      → m.expiry ≡ expiry
      → get_lease id t ≡ some r
      → HeldBy w g h id r
      → now ≤ h + expiry
      → IsRefused m now id t × (m.worker_id ≡ w → IsFenced m id g t) × IsLive m now id g t
  unfolding acquire acquire_lease check_generation owner
  held-IsRefused m now g h t r same e v on_time = (
    ground arith,
    ground arith,
    (owner_of m false now r, ground arith, ground arith, ground arith),
  )

-- While every renewal of the owner commits within `expiry` of the one before, and it neither
-- releases the lease nor is the session stopped, whatever else the workers and the API do: until
-- `expiry` has passed since its last renewal, every worker that tries to acquire the session is
-- refused, the owner passes the fencing test under its generation, and it is reported live.
pub run-exclusive :
    (expiry w id g h : ℕ) (cs : List (ℕ × Call)) (t : Leases) (r : LeaseRow) (m : Manager) (now : ℕ)
    → m.expiry ≡ expiry
    → get_lease id t ≡ some r
    → HeldBy w g h id r
    → InTime expiry w id h cs
    → now ≤ last_renewal expiry w id h cs + expiry
    → let u = run expiry cs t in
      IsRefused m now id u × (m.worker_id ≡ w → IsFenced m id g u) × IsLive m now id g u
run-exclusive expiry w id g h cs t r m now same e v i on_time =
    let (r', e', v') = run-HeldBy expiry w id g h cs t r e v i in
    held-IsRefused expiry w id m now g (last_renewal expiry w id h cs) (run expiry cs t) r' same e'
      v' on_time
