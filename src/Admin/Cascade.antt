-- ===== src/Admin/Cascade.antt =====
-- What the deletion of a tenant takes with it (internal/domain/services/tenants.go).
use zappermeow.Store.Accounts.{Accounts}
