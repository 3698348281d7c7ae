-- ===== src/Access.antt =====
-- Who may call the service: the operational keys of internal/domain/apikey.go, their revocation and
-- the middleware that admits them.
pub mod ApiKey
pub mod KeyLaws
pub mod Keys
pub mod Revocation
pub mod Issuing
pub mod Connection
pub mod Scope
pub mod Opening
pub mod Watching
pub mod Unrevoked
