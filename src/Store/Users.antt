-- ===== src/Store/Users.antt =====
-- internal/store/users.sql.go: the statements on users. The type of the email column ignores case:
-- `lower` folds a text.
use zappermeow.Base.{
  ℕ, ◌+◌, Bool, false, List, [], ◌∷◌, Option, none, some, String, leb, ◌==◌, if◌then◌else◌,
  same_text,
}
use zappermeow.Store.Accounts.{
  Accounts, UserRow, TenantRow, TenantStatus, Role, get_tenant, get_user,
}
use zappermeow.Store.Table.{update}

-- A user with the status of the tenant, if there is one.
pub record UserJoined : Type 0 where
  pub user : UserRow
  pub tenant_status : Option TenantStatus

abbrev status_of : Option TenantRow → Option TenantStatus
status_of none = none
status_of (some t) = some t.status

abbrev pub joined_status : List TenantRow → Option ℕ → Option TenantStatus
joined_status ts none = none
joined_status ts (some tenant) = status_of (get_tenant tenant ts)

-- LEFT JOIN tenants.
abbrev pub left_join : List TenantRow → Option UserRow → Option UserJoined
left_join ts none = none
left_join ts (some u) = some (record { user = u; tenant_status = joined_status ts u.tenant_id })

unfoldable pub by_email : (String → String) → String → List UserRow → Option UserRow
by_email lower email [] = none
by_email lower email (u ∷ us) =
    if same_text (lower u.email) (lower email) then some u else by_email lower email us

abbrev pub get_user_credential_by_email : (String → String) → String → Accounts → Option UserJoined
get_user_credential_by_email lower email s = left_join s.tenants (by_email lower email s.users)

abbrev pub get_user_by_id : ℕ → Accounts → Option UserJoined
get_user_by_id id s = left_join s.tenants (get_user id s.users)

-- `UPDATE users SET f WHERE id = $1`.
unfoldable pub on_user : ℕ → (UserRow → UserRow) → List UserRow → List UserRow
on_user id f = update (λ u. u.id == id) f

abbrev pub with_failure : ℕ → ℕ → ℕ → UserRow → UserRow
with_failure now max_failures lock_window u =
    let reached = leb max_failures (u.failed_login_count + 1) in
    record u {
      failed_login_count = if reached then 0 else u.failed_login_count + 1;
      locked_until = if reached then some (now + lock_window) else u.locked_until;
    }

unfoldable pub register_failed_login : ℕ → ℕ → ℕ → ℕ → List UserRow → List UserRow
register_failed_login now id max_failures lock_window =
    on_user id (with_failure now max_failures lock_window)

abbrev pub without_failures : UserRow → UserRow
without_failures u = record u { failed_login_count = 0; locked_until = none }

unfoldable pub clear_login_failures : ℕ → List UserRow → List UserRow
clear_login_failures id = on_user id without_failures

abbrev pub with_password : ℕ → String → Bool → UserRow → UserRow
with_password now hash must_change u = record u {
  password_hash = hash;
  must_change_password = must_change;
  password_changed_at = now;
  failed_login_count = 0;
  locked_until = none;
}

unfoldable pub update_password : ℕ → ℕ → String → Bool → List UserRow → List UserRow
update_password now id hash must_change = on_user id (with_password now hash must_change)

-- The oldest admin of the tenant; the rows stand in the order in which they were created.
abbrev is_admin_of : ℕ → UserRow → Bool
is_admin_of tenant u = elim u.role [
  | Role.tenant_admin ↦ elim u.tenant_id [ none ↦ false | some t ↦ t == tenant ]
  | _ ↦ false
]

unfoldable pub get_tenant_admin_by_tenant_id : ℕ → List UserRow → Option UserRow
get_tenant_admin_by_tenant_id tenant [] = none
get_tenant_admin_by_tenant_id tenant (u ∷ us) =
    if is_admin_of tenant u then some u else get_tenant_admin_by_tenant_id tenant us
