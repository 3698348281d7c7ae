-- ===== src/Identity/Lockout.antt =====
-- How many passwords can be tried on one account (internal/domain/services/auth.go and its statement
-- RegisterFailedLogin).
use zappermeow.Base.{ℕ, ◌+◌, ◌≤◌, ◌<◌, Bool, true, List, Option, String, ◌≡◌, All, length}
use zappermeow.Domain.Validate.{normalize_email}
use zappermeow.Store.Accounts.{Accounts, UserRow}
use zappermeow.Identity.Tokens.{Jwt}
use zappermeow.Identity.Login.{LoginCall, Policy}
use zappermeow.Identity.Attempts.{Holds, is_shut, Turn, IsProbe, Desk, guesses, AtMost}
use zappermeow.Identity.Waiting.{IsOf, open_reads}

module _ (p : Policy) (down : LoginCall → Bool) (j : Jwt) (lower : String → String)
    (verify : String → String → Option Bool) (email : String) where
  -- What remains: the failures that are left and all but one of the attempts under way; once the
  -- account is shut, the attempts that read it before.
  abbrev IsBounded : ℕ → ℕ → UserRow → ℕ → ℕ → Type 0
  IsBounded n until u waiting g =
      (is_shut until u ≡ true → g ≤ waiting) × (g + u.failed_login_count < p.max_failures + n)

  -- The account as it stands, and what the attempts under way read of it.
  record At (n : ℕ) (u : UserRow) (d : Desk) : Type 0 where
    held : Holds lower (normalize_email lower email) d.0.users u
    under : u.failed_login_count < p.max_failures
    reads : All (IsOf u.id u.password_hash) d.1
    fits : length d.1 ≤ n

  abbrev Bounded : ℕ → ℕ → List Turn → Type 0
  Bounded start n h =
      (u : UserRow) (d : Desk)
      → At n u d
      → IsProbe p verify start u.password_hash h
      → AtMost p down j lower verify email n h d
      → IsBounded n (start + p.lock_window) u (open_reads (start + p.lock_window) d.1)
          (guesses p down j lower verify email h d)
