-- ===== src/Identity/Passwords.antt =====
-- internal/domain/services/passwords.go: changing one's own password, and the reset that hands out a
-- temporary one. `hash` is HashPassword, `verify` VerifyPassword, `temporary` the password drawn.
use zappermeow.Base.{
  ℕ, Bool, true, false, String, [], ◌∷◌, Option, none, some, Result, ok, err, ◌>>=◌, if◌then◌else◌,
}
use zappermeow.Domain.Errors.{
  Error, err_internal, err_not_found, err_unauthenticated, err_invalid_current_password,
}
use zappermeow.Domain.Validate.{validate_password}
use zappermeow.Store.Accounts.{
  Accounts, UserRow, SecurityEvent, EventType, EventResult, TargetType, Meta, get_user, get_tenant,
}
use zappermeow.Store.Users.{update_password, get_tenant_admin_by_tenant_id}
use zappermeow.Store.Transaction.{TxCall, transaction}
use zappermeow.Identity.Login.{own_event}

pub data PasswordCall : Type 0 where
  reads reads_tenant reads_admin updates records draws : PasswordCall
  tx : TxCall → PasswordCall

-- The trail's entry joins the transaction.
abbrev pub recorded : Bool → SecurityEvent → Accounts → Result Error (Accounts × Unit {0})
recorded fails e s =
    if fails then err (err_internal "record") else ok (record s { events = e ∷ s.events }, tt)

module _ (down : PasswordCall → Bool) (now : ℕ) (hash : String → Option String) where
  abbrev set_password :
      ℕ → String → Bool → SecurityEvent → Accounts → Result Error (Accounts × Unit {0})
  set_password id new_hash must_change event s =
      if down updates
      then err (err_internal "update password")
      else recorded (down records) event
          (record s { users = update_password now id new_hash must_change s.users })

  abbrev changed : ℕ → Option String → Accounts → Accounts × Result Error (Unit {0})
  changed id none s = (s, err (err_internal "hash password"))
  changed id (some new_hash) s =
      transaction (λ c. down (tx c))
        (set_password id new_hash false
          (own_event EventType.password_changed EventResult.success id []))
        s

  abbrev compared : ℕ → String → Option Bool → Accounts → Accounts × Result Error (Unit {0})
  compared id new_password none s = (s, err (err_internal "verify password"))
  compared id new_password (some false) s = (s, err err_invalid_current_password)
  compared id new_password (some true) s = changed id (hash new_password) s

  module _ (verify : String → String → Option Bool) where
    abbrev current_row :
        ℕ → String → String → Option UserRow → Accounts → Accounts × Result Error (Unit {0})
    current_row id current_password new_password none s =
        (s, err (err_unauthenticated "The token is invalid or has expired"))
    current_row id current_password new_password (some u) s =
        compared id new_password (verify u.password_hash current_password) s

    unfoldable pub change : ℕ → String → String → Accounts → Accounts × Result Error (Unit {0})
    change id current_password new_password s =
        elim (validate_password "body.new_password" new_password) [
          | some e ↦ (s, err e)
          | none ↦
              if down reads
              then (s, err (err_internal "read password"))
              else current_row id current_password new_password (get_user id s.users) s
        ]

  abbrev reset_event : ℕ → ℕ → ℕ → SecurityEvent
  reset_event actor tenant id = record {
    type = EventType.password_reset;
    actor_user_id = some actor;
    target_type = TargetType.user;
    target_id = some id;
    result = EventResult.success;
    metadata = ("tenant_id", Meta.number tenant) ∷ [];
  }

  abbrev reset_hashed :
      ℕ → ℕ → ℕ → String → Option String → Accounts → Accounts × Result Error (String × ℕ)
  reset_hashed tenant actor id temporary none s = (s, err (err_internal "hash password"))
  reset_hashed tenant actor id temporary (some new_hash) s =
      transaction (λ c. down (tx c))
        (λ view. do
          r ← set_password id new_hash true (reset_event actor tenant id) view
          ok (r.0, (temporary, id)))
        s

  abbrev reset_admin :
      ℕ → ℕ → String → Option UserRow → Accounts → Accounts × Result Error (String × ℕ)
  reset_admin tenant actor temporary none s = (s, err err_not_found)
  reset_admin tenant actor temporary (some u) s =
      if down draws
      then (s, err (err_internal "generate temporary password"))
      else reset_hashed tenant actor u.id temporary (hash temporary) s

  -- Gives the temporary password and the admin's identifier.
  unfoldable reset_tenant_admin : ℕ → ℕ → String → Accounts → Accounts × Result Error (String × ℕ)
  reset_tenant_admin tenant actor temporary s =
      if down reads_tenant
      then (s, err (err_internal "get tenant"))
      else elim (get_tenant tenant s.tenants) [
        | none ↦ (s, err err_not_found)
        | some t ↦
            if down reads_admin
            then (s, err (err_internal "get tenant admin"))
            else reset_admin tenant actor temporary (get_tenant_admin_by_tenant_id tenant s.users) s
      ]
