-- ===== src/Admin.antt =====
-- The administration of tenants and instances (internal/domain/services/tenants.go and instances.go).
-- Each operation that writes is a transaction with its entry of the security trail (Recording).
pub mod Recording
pub mod Tenants
pub mod Instances
pub mod Projection
pub mod Cascade
pub mod Suspension
pub mod Isolation
