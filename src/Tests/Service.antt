-- ===== src/Tests/Service.antt =====
-- The laws of the connection service at a concrete tenant.
use zappermeow.Base.{ℕ, Bool, true, false, some, ◌≡◌, ◌↔◌, refl, inl, inr, arith}
use zappermeow.Domain.Instance.{active, is_active}
use zappermeow.Lease.{Manager}
use zappermeow.Lease.Adoption.{IsCandidate}
use zappermeow.Service.{Call, Plane, apply_tenant_status, prepare}
use zappermeow.Service.Preparing.{prepare-IsCandidate}
use zappermeow.Service.Tenancy.{resume-restores}
use zappermeow.Store.Instances.{instance_id}
use zappermeow.Store.Keys.{IsKeyed}
use zappermeow.Store.Leases.{LeaseRow, get_lease, running, is_free}
use zappermeow.Store.Table.{find}
use zappermeow.Tests.Workers.{config, idle, resting, wanted}

abbrev pub fine : Call → Bool
fine c = false

abbrev pub plane : Plane
plane = record { instances = idle.instances; leases = idle.leases; redis = idle.redis }

resting-IsKeyed : IsKeyed instance_id plane.instances
unfolding find
resting-IsKeyed r (inl e) = ground arith
resting-IsKeyed r (inr i) = absurd i

resume-restores_example :
    let q =
      apply_tenant_status config.manager fine 110 3 true
        (apply_tenant_status config.manager fine 100 3 false plane) in
    (r' : LeaseRow) × (get_lease 7 q.leases ≡ some r')
    × ((r'.desired_state ≡ running) ↔ (is_active active ≡ true))
unfolding find
resume-restores_example =
    resume-restores config.manager fine 100 110 3 plane resting wanted (λ c. refl) resting-IsKeyed
      (inl refl) refl refl

prepare-IsCandidate_example :
    let q = (prepare config.manager fine 100 7 active true running plane).1 in
    (r : LeaseRow) × (get_lease 7 q.leases ≡ some r)
    × (r.desired_state ≡ running)
    × ((other : Manager) (later : ℕ)
        → is_free later other.expiry r ≡ true
        → IsCandidate other later q.instances q.leases 7)
unfolding find
prepare-IsCandidate_example =
    prepare-IsCandidate config.manager fine 100 7 plane resting (λ c. refl) refl
