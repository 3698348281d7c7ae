-- ===== src/Identity.antt =====
-- Who administers the service: users with a password, the tokens that they are given and the middleware
-- that admits a token (internal/domain/user.go and token.go, internal/domain/services/auth.go and
-- passwords.go, internal/api/middleware/auth.go).
pub mod Tokens
pub mod Issued
pub mod Login
pub mod Attempts
pub mod Waiting
pub mod Lockout
pub mod Gate
pub mod Passwords
pub mod Replaced
pub mod Admitted
