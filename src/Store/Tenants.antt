-- ===== src/Store/Tenants.antt =====
-- internal/store/tenants.sql.go, the insertion of users.sql.go and instances.sql.go: the statements of
-- the accounts with the constraints of their tables. Names and addresses ignore case: `lower` folds them.
-- What hangs on a row goes with it (ON DELETE CASCADE); the leases and the connection trail, which go
-- too, are not among these tables. The rows stand in the order in which they were created.
use zappermeow.Base.{
  ℕ, Bool, true, false, not, ◌&&◌, [], ◌∷◌, ◌++◌, Option, none, some, String, Result, ok, err, ◌==◌,
  if◌then◌else◌, same_text, select, any, length,
}
use zappermeow.Domain.Instance.{registered, stopped}
use zappermeow.Store.Accounts.{Accounts, TenantRow, TenantStatus, UserRow, ApiKeyRow, get_tenant}
use zappermeow.Store.Instances.{InstanceRow, Instances, get_instance}
use zappermeow.Store.Table.{update}

-- How a statement fails: no row, a violated constraint, or the database.
pub data DbError : Type 0 where
  no_rows failed : DbError
  unique : String → DbError

abbrev pub Statement : Type 0 → Type 0
Statement A = Accounts → Result DbError (Accounts × A)

abbrev pub of_tenant : ℕ → Option InstanceRow → Option InstanceRow
of_tenant tenant none = none
of_tenant tenant (some i) = if i.tenant_id == tenant then some i else none

-- `SELECT * FROM instances WHERE id = $1 AND tenant_id = $2`.
abbrev pub get_instance_by_id_and_tenant : ℕ → ℕ → Accounts → Option InstanceRow
get_instance_by_id_and_tenant id tenant s = of_tenant tenant (get_instance id s.instances)

module _ (lower : String → String) where
  abbrev same_name : String → String → Bool
  same_name a b = same_text (lower a) (lower b)

  unfoldable pub create_tenant : ℕ → ℕ → String → Statement TenantRow
  create_tenant now id name s =
      let row : TenantRow = record {
        id = id;
        name = name;
        status = TenantStatus.active;
        updated_at = now;
      } in
      if any (λ (t : TenantRow). same_name t.name name) s.tenants
      then err (unique "tenants_name_key")
      else ok (record s { tenants = s.tenants ++ (row ∷ []) }, row)

  unfoldable pub create_user : UserRow → Statement UserRow
  create_user row s =
      if any (λ (u : UserRow). same_name u.email row.email) s.users
      then err (unique "users_email_key")
      else ok (record s { users = s.users ++ (row ∷ []) }, row)

  unfoldable pub update_tenant_name : ℕ → ℕ → String → Statement TenantRow
  update_tenant_name now id name s = elim (get_tenant id s.tenants) [
    | none ↦ err no_rows
    | some t ↦
        let renamed = λ (x : TenantRow). record x { name = name; updated_at = now } in
        if any (λ (x : TenantRow). same_name x.name name && not (x.id == id)) s.tenants
        then err (unique "tenants_name_key")
        else ok (
          record s { tenants = update (λ (x : TenantRow). x.id == id) renamed s.tenants },
          renamed t,
        )
  ]

  abbrev new_instance : ℕ → ℕ → ℕ → String → InstanceRow
  new_instance now id tenant name = record {
    id = id;
    tenant_id = tenant;
    name = name;
    connection_state = registered;
    connection_intent = stopped;
    wa_jid = none;
    wa_lid = none;
    phone_number = none;
    push_name = none;
    platform = none;
    business_name = none;
    paired_at = none;
    connected_at = none;
    last_disconnect_at = none;
    last_disconnect_reason = none;
    ban_expires_at = none;
    proxy_url = none;
    passive_mode = false;
    updated_at = now;
  }

  -- An instance of the tenant with that name, other than the one excepted.
  abbrev is_taken : ℕ → String → Option ℕ → InstanceRow → Bool
  is_taken tenant name except i =
      (i.tenant_id == tenant)
      && same_name i.name name
      && elim except [ none ↦ true | some id ↦ not (i.id == id) ]

  unfoldable pub create_instance : ℕ → ℕ → ℕ → String → Statement InstanceRow
  create_instance now id tenant name s =
      let row = new_instance now id tenant name in
      if any (is_taken tenant name none) s.instances
      then err (unique "instances_tenant_id_name_uk")
      else ok (record s { instances = s.instances ++ (row ∷ []) }, row)

  abbrev with_name : ℕ → String → InstanceRow → InstanceRow
  with_name now name i = record i { name = name; updated_at = now }

  abbrev renamed_instance : ℕ → ℕ → ℕ → String → Option InstanceRow → Statement InstanceRow
  renamed_instance now id tenant name none s = err no_rows
  renamed_instance now id tenant name (some i) s =
      if any (is_taken tenant name (some id)) s.instances
      then err (unique "instances_tenant_id_name_uk")
      else ok (
        record s {
          instances =
              update (λ (x : InstanceRow). (x.id == id) && (x.tenant_id == tenant))
                (with_name now name) s.instances;
        },
        with_name now name i,
      )

  unfoldable pub rename_instance : ℕ → ℕ → ℕ → String → Statement InstanceRow
  rename_instance now id tenant name s =
      renamed_instance now id tenant name (get_instance_by_id_and_tenant id tenant s) s

abbrev pub list_instances_by_tenant : ℕ → Accounts → Instances
list_instances_by_tenant tenant s = select (λ (i : InstanceRow). i.tenant_id == tenant) s.instances

abbrev pub with_status : ℕ → TenantStatus → TenantRow → TenantRow
with_status now status t = record t { status = status; updated_at = now }

unfoldable pub set_tenant_status : ℕ → ℕ → TenantStatus → Statement TenantRow
set_tenant_status now id status s = elim (get_tenant id s.tenants) [
  | none ↦ err no_rows
  | some t ↦ ok (
    record s {
      tenants = update (λ (x : TenantRow). x.id == id) (with_status now status) s.tenants;
    },
    with_status now status t,
  )
]

abbrev pub is_user_of : ℕ → UserRow → Bool
is_user_of tenant u = elim u.tenant_id [ none ↦ false | some t ↦ t == tenant ]

abbrev pub is_instance_of : ℕ → InstanceRow → Bool
is_instance_of tenant i = i.tenant_id == tenant

-- The key's instance is one of the tenant.
abbrev pub is_key_of : ℕ → Instances → ApiKeyRow → Bool
is_key_of tenant is k = elim (get_instance k.instance_id is) [
  | none ↦ false
  | some i ↦ i.tenant_id == tenant
]

pub record Cascade : Type 0 where
  pub user_count : ℕ
  pub instance_count : ℕ
  pub api_key_count : ℕ

unfoldable pub count_tenant_cascade : ℕ → Accounts → Cascade
count_tenant_cascade tenant s = record {
  user_count = length (select (is_user_of tenant) s.users);
  instance_count = length (select (is_instance_of tenant) s.instances);
  api_key_count = length (select (is_key_of tenant s.instances) s.keys);
}

-- The rows that stay.
abbrev pub without_tenant : ℕ → Accounts → Accounts
without_tenant tenant s = record s {
  tenants = select (λ (t : TenantRow). not (t.id == tenant)) s.tenants;
  users = select (λ u. not (is_user_of tenant u)) s.users;
  instances = select (λ i. not (is_instance_of tenant i)) s.instances;
  keys = select (λ k. not (is_key_of tenant s.instances k)) s.keys;
}

unfoldable pub delete_tenant_by_id : ℕ → Statement TenantRow
delete_tenant_by_id tenant s = elim (get_tenant tenant s.tenants) [
  | none ↦ err no_rows
  | some t ↦ ok (without_tenant tenant s, t)
]

abbrev pub count_keys_by_instance : ℕ → Accounts → ℕ
count_keys_by_instance id s = length (select (λ (k : ApiKeyRow). k.instance_id == id) s.keys)

abbrev without_instance : ℕ → Accounts → Accounts
without_instance id s = record s {
  instances = select (λ (i : InstanceRow). not (i.id == id)) s.instances;
  keys = select (λ (k : ApiKeyRow). not (k.instance_id == id)) s.keys;
}

unfoldable pub delete_instance : ℕ → ℕ → Statement InstanceRow
delete_instance id tenant s = elim (get_instance_by_id_and_tenant id tenant s) [
  | none ↦ err no_rows
  | some i ↦ ok (without_instance id s, i)
]
