-- ===== src/Worker/Drain.antt =====
-- The drain of a worker (internal/worker/supervisor.go, `Shutdown`) is final.
use zappermeow.Base.{
  ℕ, ◌≤◌, Bool, true, false, ◌≡◌, ◌≢◌, refl, ap, ◌∙◌, inl, inr, List, [], ◌∷◌, some, ok, err,
  Bool-cases, if◌then◌else◌, arith, In, In-select, length,
}
use zappermeow.Store.Leases.{
  LeaseRow, Leases, get_lease, owned_by, released, release_worker_leases, instance_key,
}
use zappermeow.Store.Table.{find-update}
use zappermeow.Lease.{release_all}
use zappermeow.Wa.Session.{SessionApi, worker_shutdown}
use zappermeow.Worker.State.{
  managed_key, Call, WorkerError, Config, Managed, World, is_pairing, append, emit, drop_snapshot,
}
use zappermeow.Worker.Sessions.{
  has_capacity, adopt, shutdown, stop_each, stop, publish_pairing_ended,
}
use zappermeow.Worker.Runtime.{
  Action, adopts, reconciles, claims, others, act, run, claim, reconcile_once,
}
use zappermeow.Worker.Keeps.{Keeps, is_not}
use zappermeow.Worker.Safety.{IsOwn, Run, AllOwn, act-Keeps, Owned}
use zappermeow.Worker.Periodic.{stop_each-Keeps}

-- No session runs, none will, and no lease names the worker.
pub record IsDrained {S : Type 0} (c : Config) (w : World S) : Type 0 where
  pub stopped : w.sessions ≡ []
  pub draining : w.draining ≡ true
  unowned :
      (id : ℕ) (r : LeaseRow)
      → get_lease id w.leases ≡ some r
      → r.worker_id ≢ some c.manager.worker_id

module _ {S : Type 0} (api : SessionApi S) (c : Config) where
  Keeps-IsDrained : (w v : World S) → Keeps c.manager.worker_id w v → IsDrained c w → IsDrained c v
  Keeps-IsDrained w v k d = record {
    stopped = none_left v.sessions (omega (arith, k.sessions.shorter, ap length d.stopped));
    draining = k.drained d.draining;
    unowned = λ id r e o. let (r', e', o', g) = k.leases.back id r e o in d.unowned id r' e' o';
  }
    where
      none_left : (xs : List (Managed S)) → length xs ≤ 0 → xs ≡ []
      none_left [] h = refl
      none_left (x ∷ xs) h = absurd (omega arith)

  full : (w : World S) → IsDrained c w → has_capacity c w ≡ false
  full w d = rw d.draining refl

  act-IsDrained :
      (down : Call → Bool) (now : ℕ) (a : Action) (w : World S)
      → IsOwn c a
      → IsDrained c w
      → IsDrained c (act api c down now a w)
  unfolding act claim reconcile_once adopt
  act-IsDrained down now (adopts id) w o d = rw (full w d, act, adopt) d
  act-IsDrained down now (claims id) w o d = rw (full w d, act, claim) d
  act-IsDrained down now reconciles w o d = rw (full w d, act, reconcile_once) d
  act-IsDrained down now (others call) w o d =
      Keeps-IsDrained w _ (act-Keeps api c down now (others call) w o) d
  act-IsDrained down now a w o d = Keeps-IsDrained w _ (act-Keeps api c down now a w tt) d

  run-IsDrained :
      (actions : Run) (w : World S)
      → AllOwn c actions
      → IsDrained c w
      → IsDrained c (run api c actions w)
  unfolding run
  run-IsDrained [] w o d = d
  run-IsDrained ((down, now, a) ∷ more) w (o, os) d =
      run-IsDrained more (act api c down now a w) os (act-IsDrained down now a w o d)

  -- What a drain leaves was there, and is none of those it stopped.
  stop_each-In :
      (down : Call → Bool) (now : ℕ) (ms : List (Managed S)) (w : World S) (m : Managed S)
      → In m (stop_each api c down now ms w).sessions
      → In m w.sessions × ((x : Managed S) → In x ms → m ≢ x)
  unfolding publish_pairing_ended emit append drop_snapshot stop
  stop_each-In down now [] w m i = (i, λ x j. absurd j)
  stop_each-In down now (x ∷ ms) w m i =
      let (j, others_gone) = stop_each-In down now ms _ m i in
      let (k, pass) = In-select (is_not x.instance_id) _ m j in
      (before (is_pairing now x) k, λ y l. gone y l pass others_gone)
    where
      before :
          (b : Bool)
          → In m
              (if b then publish_pairing_ended api c down now x worker_shutdown w else w).sessions
          → In m w.sessions
      before true k = k
      before false k = k

      gone :
          (y : Managed S)
          → In y (x ∷ ms)
          → is_not x.instance_id m ≡ true
          → ((z : Managed S) → In z ms → m ≢ z)
          → m ≢ y
      gone y (inl e) pass others_gone same =
          let one : m.instance_id ≡ x.instance_id = ap managed_key (same ∙ e) in ground arith
      gone y (inr l) pass others_gone same = others_gone y l same

  released-unowned :
      (now me id : ℕ) (t : Leases) (r : LeaseRow)
      → get_lease id (release_worker_leases now me t) ≡ some r
      → r.worker_id ≢ some me
  unfolding release_worker_leases
  released-unowned now me id t r e o =
      ground (arith, find-update instance_key (owned_by me) (released now) (λ x. refl) id t)

  shutdown-IsDrained :
      (down : Call → Bool) (now : ℕ) (w : World S)
      → (shutdown api c down now w).0 ≡ ok tt
      → IsDrained c (shutdown api c down now w).1
  unfolding shutdown release_all
  shutdown-IsDrained down now w e = elim (Bool-cases (down Call.releases_all)) [
    | inl failing ↦ absurd (ground arith)
    | inr working ↦ record {
      stopped = nothing_left _ (λ m i. left m i);
      draining = draining_kept w.sessions (record w { draining = true }) refl;
      unowned = λ id r there. released-unowned now c.manager.worker_id id _ r (rw working at there);
    }
  ]
    where
      nothing_left : (xs : List (Managed S)) → ((m : Managed S) → In m xs → ⊥) → xs ≡ []
      nothing_left [] h = refl
      nothing_left (x ∷ xs) h = absurd (h x (inl refl))

      left :
          (m : Managed S)
          → In m (stop_each api c down now w.sessions (record w { draining = true })).sessions
          → ⊥
      left m i =
          let (j, gone) = stop_each-In down now w.sessions (record w { draining = true }) m i in
          gone m j refl

      draining_kept :
          (ms : List (Managed S)) (v : World S)
          → v.draining ≡ true
          → (stop_each api c down now ms v).draining ≡ true
      draining_kept ms v d = (stop_each-Keeps api c down now ms v).drained d

-- After a drain whose release of the leases went through, whatever reaches the process and whatever
-- others run: it has no session, every adoption is refused because it drains, and no lease names it.
pub shutdown-final :
    {S : Type 0} (api : SessionApi S) (c : Config) (down : Call → Bool) (now : ℕ) (w : World S)
    (actions : Run)
    → (shutdown api c down now w).0 ≡ ok tt
    → AllOwn c actions
    → let v = run api c actions (shutdown api c down now w).1 in
      (v.sessions ≡ [])
      × ((faults : Call → Bool) (later id : ℕ)
          → adopt api c faults later id v ≡ (err WorkerError.draining, v))
      × ((id : ℕ) → Owned c.manager.worker_id id v.leases → ⊥)
unfolding adopt
shutdown-final api c down now w actions e own =
    let d =
      run-IsDrained api c actions (shutdown api c down now w).1 own
        (shutdown-IsDrained api c down now w e) in
    (
      d.stopped,
      λ faults later id. rw (full api c _ d) refl,
      λ id (r, there, o). d.unowned id r there o,
    )
