-- ===== src/Identity/Replaced.antt =====
-- What a new password does to the tokens that are out (internal/domain/services/passwords.go and
-- internal/api/middleware/auth.go).
use zappermeow.Base.{ℕ, Bool, false, String, Option, ok, ◌≡◌, inl, inr, arith, Option-cases}
use zappermeow.Store.Accounts.{Accounts}
use zappermeow.Store.Transaction.{transaction}
use zappermeow.Store.Users.{update_password}
use zappermeow.Identity.Passwords.{PasswordCall, change}

-- A change that succeeds writes the password, and no other table than the users and the trail.
pub change-eq-ok :
    (down : PasswordCall → Bool) (now : ℕ) (hash : String → Option String)
    (verify : String → String → Option Bool) (id : ℕ) (current_password new_password : String)
    (s s' : Accounts)
    → change down now hash verify id current_password new_password s ≡ (s', ok tt)
    → (new_hash : String) × (s'.users ≡ update_password now id new_hash false s.users)
      × (s'.tenants ≡ s.tenants)
      × (s'.instances ≡ s.instances)
      × (s'.keys ≡ s.keys)
unfolding change transaction
change-eq-ok down now hash verify id current_password new_password s s' e =
    elim (Option-cases (hash new_password)) [
      | inl none_ ↦ absurd (ground (arith, e, none_))
      | inr (new_hash, there) ↦ (
        new_hash,
        ground (arith, e, there),
        ground (arith, e, there),
        ground (arith, e, there),
        ground (arith, e, there),
      )
    ]
