-- ===== src/Admin/Projection.antt =====
-- How a tenant's status reaches its sessions (TenantSessionProjector of internal/domain/services/
-- tenants.go, which is the connection service).
use zappermeow.Base.{ℕ, Bool}
use zappermeow.Events.{Redis}
use zappermeow.Identity.Login.{is_active_tenant}
use zappermeow.Lease.{Manager}
use zappermeow.Service.{Call, Plane, apply_tenant_status}
use zappermeow.Store.Accounts.{Accounts, TenantStatus}
use zappermeow.Store.Leases.{Leases}

-- The leases and what Redis holds.
abbrev pub Fleet : Type 0
Fleet = Leases × Redis

abbrev pub plane_of : Accounts × Fleet → Plane
plane_of (s, (leases, redis)) = record { instances = s.instances; leases = leases; redis = redis }

abbrev pub back : Accounts → Plane → Accounts × Fleet
back s p = (record s { instances = p.instances }, (p.leases, p.redis))

unfoldable pub project_status :
    Manager → (Call → Bool) → ℕ → ℕ → TenantStatus → Accounts × Fleet → Accounts × Fleet
project_status m down now id status w =
    back w.0 (apply_tenant_status m down now id (is_active_tenant status) (plane_of w))
