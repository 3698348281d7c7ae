-- ===== src/Admin/Tenants.antt =====
-- internal/domain/services/tenants.go: creating, renaming, suspending and deleting a tenant. `lower`
-- folds a text, `hash` is HashPassword, `parse_address` reads an address; a new identifier is an argument.
use zappermeow.Base.{
  ◌>>=◌, ℕ, Bool, true, false, String, List, [], ◌∷◌, Option, none, some, Result, ok, err,
  if◌then◌else◌, same_text,
}
use zappermeow.Domain.Errors.{Error, err_internal, err_not_found, err_conflict, err_validation}
use zappermeow.Domain.Validate.{
  normalize_name, normalize_email, validate_name, validate_email, validate_password, collect_errors,
}
use zappermeow.Store.Accounts.{
  Accounts, TenantRow, TenantStatus, UserRow, SecurityEvent, EventType, Meta, get_tenant,
}
use zappermeow.Store.Tenants.{
  create_tenant, create_user, update_tenant_name, set_tenant_status, count_tenant_cascade,
  delete_tenant_by_id, Cascade,
}
use zappermeow.Store.Users.{get_tenant_admin_by_tenant_id}
use zappermeow.Store.Transaction.{Body, transaction}
use zappermeow.Admin.Recording.{
  AdminCall, creates, creates_user, updates, sets, counts, deletes, reads, reads_admin, records, tx,
  run, record_event, tenant_event, status_event, status_text, tenant_admin_row,
}

-- What the use cases make of a constraint (tenantConstraints and conflictField).
abbrev conflict_field : String → Error
conflict_field name =
    if same_text name "tenants_name_key"
    then err_conflict "body.name" "a tenant with this name already exists"
    else if same_text name "users_email_key"
    then err_conflict "body.admin.email" "a user with this email already exists"
    else err_conflict "body" "conflicts with an existing resource"

-- A status written by a request; the column admits the two.
unfoldable pub is_valid : TenantStatus → Bool
is_valid TenantStatus.active = true
is_valid TenantStatus.suspended = true
is_valid (TenantStatus.other s) = false

pub record CreateTenantInput : Type 0 where
  pub name : String
  pub admin_name : String
  pub admin_email : String
  pub admin_password : String
  pub actor_id : ℕ

module _ (down : AdminCall → Bool) (now : ℕ) (lower : String → String) where
  abbrev tenant_recorded :
      EventType
      → ℕ
      → TenantRow
      → List (String × Meta)
      → Accounts
      → Result Error (Accounts × TenantRow)
  tenant_recorded type actor t metadata s = do
    s' ← record_event (down records) (tenant_event type actor t.id metadata) s
    ok (s', t)

  -- The tenant and its admin, or neither.
  abbrev create_body :
      ℕ → ℕ → String → String → String → String → ℕ → Body Accounts (TenantRow × UserRow)
  create_body id admin_id name admin_name admin_email hash actor s = do
    made ← run conflict_field false (down creates) (create_tenant lower now id name) s
    born ←
        run conflict_field false (down creates_user)
          (create_user lower (tenant_admin_row now admin_id id admin_name admin_email hash)) made.0
    s' ←
        record_event (down records)
          (tenant_event EventType.tenant_created actor id
            (("tenant_name", Meta.text name) ∷ ("admin_user_id", Meta.number admin_id) ∷ []))
          born.0
    ok (s', (made.1, born.1))

  abbrev create_hashed :
      ℕ
      → ℕ
      → CreateTenantInput
      → Option String
      → Accounts
      → Accounts × Result Error (TenantRow × UserRow)
  create_hashed id admin_id i none s = (s, err (err_internal "hash password"))
  create_hashed id admin_id i (some hash) s =
      transaction (λ c. down (tx c))
        (create_body id admin_id (normalize_name i.name) (normalize_name i.admin_name)
          (normalize_email lower i.admin_email) hash i.actor_id)
        s

  unfoldable pub create :
      (String → Option String)
      → (String → Option String)
      → ℕ
      → ℕ
      → CreateTenantInput
      → Accounts
      → Accounts × Result Error (TenantRow × UserRow)
  create parse_address hash id admin_id i s =
      elim (collect_errors (
        validate_name "body.name" (normalize_name i.name)
        ∷ validate_name "body.admin.name" (normalize_name i.admin_name)
        ∷ validate_email lower parse_address "body.admin.email"
            (normalize_email lower i.admin_email)
        ∷ validate_password "body.admin.password" i.admin_password
        ∷ [])) [
          | some e ↦ (s, err e)
          | none ↦ create_hashed id admin_id i (hash i.admin_password) s
        ]

  abbrev rename_body : ℕ → String → ℕ → Body Accounts TenantRow
  rename_body id name actor s = do
    r ← run conflict_field true (down updates) (update_tenant_name lower now id name) s
    tenant_recorded EventType.tenant_updated actor r.1 (("tenant_name", Meta.text r.1.name) ∷ [])
        r.0

  unfoldable pub rename : ℕ → String → ℕ → Accounts → Accounts × Result Error TenantRow
  rename id raw actor s =
      let name = normalize_name raw in
      elim (validate_name "body.name" name) [
        | some e ↦ (s, err e)
        | none ↦ transaction (λ c. down (tx c)) (rename_body id name actor) s
      ]

-- What follows the commit of a status.
abbrev pub projected :
    {X : Type 0}
    → (ℕ → TenantStatus → Accounts × X → Accounts × X)
    → X
    → Accounts × Result Error TenantRow
    → (Accounts × X) × Result Error TenantRow
projected project x (s, err e) = ((s, x), err e)
projected project x (s, ok t) = (project t.id t.status (s, x), ok t)

module _ (down : AdminCall → Bool) (now : ℕ) where
  abbrev status_recorded : ℕ → Accounts × TenantRow → Result Error (Accounts × TenantRow)
  status_recorded actor (s, t) = do
    s' ←
        record_event (down records)
          (tenant_event (status_event t.status) actor t.id
            (("tenant_name", Meta.text t.name) ∷ ("status", Meta.text (status_text t.status)) ∷ []))
          s
    ok (s', t)

  abbrev status_body : ℕ → TenantStatus → ℕ → Body Accounts TenantRow
  status_body id status actor s = do
    r ← run conflict_field true (down sets) (set_tenant_status now id status) s
    status_recorded actor r

  -- Up to the commit.
  unfoldable pub decide_status : ℕ → TenantStatus → ℕ → Accounts → Accounts × Result Error TenantRow
  decide_status id status actor s =
      if is_valid status
      then transaction (λ c. down (tx c)) (status_body id status actor) s
      else (s, err (err_validation "path.status" "must be active or suspended"))

  -- The sessions are told after the commit: `project` does that, on the tables and on what else it
  -- touches.
  unfoldable pub set_status :
      {X : Type 0}
      → (ℕ → TenantStatus → Accounts × X → Accounts × X)
      → ℕ
      → TenantStatus
      → ℕ
      → Accounts × X
      → (Accounts × X) × Result Error TenantRow
  set_status project id status actor (s, x) = projected project x (decide_status id status actor s)

  abbrev deleted_event : ℕ → TenantRow → Cascade → SecurityEvent
  deleted_event actor t gone = tenant_event EventType.tenant_deleted actor t.id (
      ("tenant_name", Meta.text t.name)
      ∷ ("users_deleted", Meta.number gone.user_count)
      ∷ ("instances_deleted", Meta.number gone.instance_count)
      ∷ ("api_keys_revoked", Meta.number gone.api_key_count)
      ∷ ("cascade_irreversible", Meta.flag true)
      ∷ [])

  abbrev delete_counted : ℕ → ℕ → Body Accounts (Unit {0})
  delete_counted id actor s = if down counts then err (err_internal "count cascade") else do
    r ← run conflict_field true (down deletes) (delete_tenant_by_id id) s
    s' ← record_event (down records) (deleted_event actor r.1 (count_tenant_cascade id s)) r.0
    ok (s', tt)

  abbrev delete_named : ℕ → String → ℕ → Option TenantRow → Body Accounts (Unit {0})
  delete_named id confirm_name actor none s = err err_not_found
  delete_named id confirm_name actor (some t) s =
      if same_text confirm_name t.name
      then delete_counted id actor s
      else err (err_validation "body.confirm_name" "must match the tenant name exactly")

  abbrev delete_body : ℕ → String → ℕ → Body Accounts (Unit {0})
  delete_body id confirm_name actor s =
      if down reads
      then err (err_internal "get tenant")
      else delete_named id confirm_name actor (get_tenant id s.tenants) s

  unfoldable pub delete : ℕ → String → ℕ → Accounts → Accounts × Result Error (Unit {0})
  delete id confirm_name actor = transaction (λ c. down (tx c)) (delete_body id confirm_name actor)

module _ (down : AdminCall → Bool) where
  -- The oldest first, as the table stands.
  unfoldable pub list : Accounts → Result Error (List TenantRow)
  list s = if down reads then err (err_internal "list tenants") else ok s.tenants

  -- A tenant with its admin, if one is there.
  unfoldable pub get : ℕ → Accounts → Result Error (TenantRow × Option UserRow)
  get id s =
      if down reads then err (err_internal "get tenant") else elim (get_tenant id s.tenants) [
        | none ↦ err err_not_found
        | some t ↦
            if down reads_admin
            then err (err_internal "get tenant admin")
            else ok (t, get_tenant_admin_by_tenant_id id s.users)
      ]
