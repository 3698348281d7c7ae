-- ===== src/Admin/Recording.antt =====
-- internal/domain/services/tenants.go and instances.go: what the use cases of tenants and instances share,
-- their calls, the answer to a failed statement and the entries of the security trail.
use zappermeow.Base.{ℕ, Bool, false, String, List, ◌∷◌, none, some, Result, ok, err, if◌then◌else◌}
use zappermeow.Domain.Errors.{Error, err_internal, err_not_found}
use zappermeow.Store.Accounts.{
  Accounts, TenantStatus, UserRow, Role, SecurityEvent, EventType, EventResult, TargetType, Meta,
}
use zappermeow.Store.Tenants.{DbError, Statement}
use zappermeow.Store.Transaction.{TxCall, Body}

pub data AdminCall : Type 0 where
  creates creates_user updates sets counts deletes reads reads_admin records : AdminCall
  tx : TxCall → AdminCall

-- The answer to a failed statement; where the code does not expect the absence of a row it is internal.
abbrev db_error : (String → Error) → Bool → DbError → Error
db_error conflict expected DbError.no_rows =
    if expected then err_not_found else err_internal "no rows"
db_error conflict expected DbError.failed = err_internal "statement"
db_error conflict expected (DbError.unique name) = conflict name

-- A statement in a body; `down` says that it fails.
abbrev pub run : {A : Type 0} → (String → Error) → Bool → Bool → Statement A → Body Accounts A
run conflict expected down f s =
    if down
    then err (err_internal "statement")
    else elim (f s) [ err e ↦ err (db_error conflict expected e) | ok r ↦ ok r ]

abbrev pub record_event : Bool → SecurityEvent → Accounts → Result Error Accounts
record_event fails e s =
    if fails then err (err_internal "record") else ok (record s { events = e ∷ s.events })

abbrev pub tenant_event : EventType → ℕ → ℕ → List (String × Meta) → SecurityEvent
tenant_event type actor id metadata = record {
  type = type;
  actor_user_id = some actor;
  target_type = TargetType.tenant;
  target_id = some id;
  result = EventResult.success;
  metadata = metadata;
}

abbrev pub status_event : TenantStatus → EventType
status_event s = elim s [
  | TenantStatus.suspended ↦ EventType.tenant_suspended
  | _ ↦ EventType.tenant_activated
]

abbrev pub status_text : TenantStatus → String
status_text TenantStatus.active = "active"
status_text TenantStatus.suspended = "suspended"
status_text (TenantStatus.other s) = s

abbrev pub tenant_admin_row : ℕ → ℕ → ℕ → String → String → String → UserRow
tenant_admin_row now id tenant name email hash = record {
  id = id;
  name = name;
  email = email;
  password_hash = hash;
  role = Role.tenant_admin;
  tenant_id = some tenant;
  must_change_password = false;
  failed_login_count = 0;
  locked_until = none;
  password_changed_at = now;
}
