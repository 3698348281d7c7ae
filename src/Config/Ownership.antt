-- ===== src/Config/Ownership.antt =====
-- Why the checks on the timings of a lease are enough (internal/config/config.go with internal/lease).
use zappermeow.Base.{
  ℕ, ◌+◌, ◌*◌, ◌≤◌, ◌<◌, List, [], ◌∷◌, Option, some, String, ok, ◌≡◌, refl, arith,
}
use zappermeow.Config.{ServiceConfig, Secret, SecretFile, load}
use zappermeow.Config.Bounds.{load-IsSafe}
use zappermeow.Lease.{Manager}
use zappermeow.Lease.Exclusive.{
  HeldBy, InTime, renewal, last_renewal, IsRefused, IsFenced, IsLive, run-exclusive,
}
use zappermeow.Lease.Trace.{Call, run}
use zappermeow.Store.Leases.{Leases, LeaseRow, get_lease}

-- Renewals that are on time for a shorter expiry are so for a longer one, with the same last renewal.
InTime-mono :
    (short long w id h : ℕ) (cs : List (ℕ × Call))
    → short ≤ long
    → InTime short w id h cs
    → InTime long w id h cs × (last_renewal short w id h cs ≡ last_renewal long w id h cs)
InTime-mono short long w id h [] le on_time = (tt, refl)
InTime-mono short long w id h ((now, c) ∷ cs) le (soon, keeps, on_time) =
    let (rest, same) = InTime-mono short long w id (renewal w h now c) cs le on_time in
    ((omega arith, keeps, rest), same)

-- Under a configuration that was loaded, whose heartbeat interval is small enough for its triple to be a
-- duration, an owner may miss two renewals in a row: while each of its renewals commits within three
-- heartbeat intervals of the one before, it neither releases the lease nor is the session stopped, then
-- until three intervals after its last renewal, whatever else the workers and the API do, every worker
-- is refused the session, the owner passes the fencing test and it is reported live.
pub load-exclusive :
    (parse_address : String → Option String) (read : Secret → SecretFile)
    (parsed : Option ServiceConfig) (c : ServiceConfig) (w id g h : ℕ) (cs : List (ℕ × Call))
    (t : Leases) (r : LeaseRow) (m : Manager) (now : ℕ)
    → load parse_address read parsed ≡ ok c
    → 3 * c.lease_heartbeat_interval < 9223372036854775808
    → m.expiry ≡ c.lease_expiry
    → get_lease id t ≡ some r
    → HeldBy w g h id r
    → InTime (3 * c.lease_heartbeat_interval) w id h cs
    → now ≤ last_renewal (3 * c.lease_heartbeat_interval) w id h cs + 3 * c.lease_heartbeat_interval
    → let u = run c.lease_expiry cs t in
      IsRefused m now id u × (m.worker_id ≡ w → IsFenced m id g u) × IsLive m now id g u
load-exclusive parse_address read parsed c w id g h cs t r m now loaded small expiry stored held
      on_time soon =
    let safe = load-IsSafe parse_address read parsed c loaded in
    let (on_time', same) =
      InTime-mono (3 * c.lease_heartbeat_interval) c.lease_expiry w id h cs (safe.slack small)
        on_time in
    run-exclusive c.lease_expiry w id g h cs t r m now expiry stored held on_time'
      (omega (arith, safe.slack small, same, soon))
