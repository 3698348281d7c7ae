-- ===== src/Domain.antt =====
-- internal/domain: the vocabulary that both planes of the service share.
pub mod Instance
pub mod Reason
pub mod Trail
pub mod Errors
pub mod Validate
pub mod Validated
pub mod Proxy
