-- ===== src/Api.antt =====
-- internal/api: what the HTTP plane makes of the domain's errors.
pub mod Problems
pub mod Leaks
