-- ===== src/Store/Accounts.antt =====
-- The tables of accounts: tenants, users, instances, keys and the security trail (internal/domain/
-- tenant.go, user.go, apikey.go and securityevent.go name their columns).
use zappermeow.Base.{ℕ, Bool, String, List, Option}
use zappermeow.Store.Instances.{Instances}
use zappermeow.Store.Table.{find}

pub data ApiKeyStatus : Type 0 where
  active revoked : ApiKeyStatus

-- A column of text: any other value reads as it is.
pub data TenantStatus : Type 0 where
  active suspended : TenantStatus
  other : String → TenantStatus

pub data Role : Type 0 where
  super_admin tenant_admin : Role
  other : String → Role

pub record TenantRow : Type 0 where
  pub id : ℕ
  pub name : String
  pub status : TenantStatus
  pub updated_at : ℕ

-- The stored hash is a text of internal/domain/password.go.
pub record UserRow : Type 0 where
  pub id : ℕ
  pub name : String
  pub email : String
  pub password_hash : String
  pub role : Role
  pub tenant_id : Option ℕ
  pub must_change_password : Bool
  pub failed_login_count : ℕ
  pub locked_until : Option ℕ
  pub password_changed_at : ℕ

pub record ApiKeyRow : Type 0 where
  pub id : ℕ
  pub instance_id : ℕ
  pub label : Option String
  pub key_prefix : List ℕ
  pub secret_hash : ℕ
  pub status : ApiKeyStatus
  pub created_at : ℕ
  pub revoked_at : Option ℕ

pub data EventType : Type 0 where
  login_succeeded login_failed account_locked account_unlocked : EventType
  password_changed password_reset : EventType
  tenant_created tenant_updated tenant_suspended tenant_activated tenant_deleted : EventType
  instance_created instance_updated instance_deleted : EventType
  api_key_created api_key_revoked bootstrap_admin_created : EventType

pub data EventResult : Type 0 where
  success failure denied : EventResult

pub data TargetType : Type 0 where
  unset tenant user instance api_key : TargetType

-- A value of the metadata.
pub data Meta : Type 0 where
  text : String → Meta
  number : ℕ → Meta
  bytes : List ℕ → Meta
  flag : Bool → Meta

-- The address of the caller is not kept.
pub record SecurityEvent : Type 0 where
  pub type : EventType
  pub actor_user_id : Option ℕ
  pub target_type : TargetType
  pub target_id : Option ℕ
  pub result : EventResult
  pub metadata : List (String × Meta)

pub record Accounts : Type 0 where
  pub tenants : List TenantRow
  pub users : List UserRow
  pub instances : Instances
  pub keys : List ApiKeyRow
  pub events : List SecurityEvent

abbrev pub key_id : ApiKeyRow → ℕ
key_id k = k.id

abbrev pub key_hash : ApiKeyRow → ℕ
key_hash k = k.secret_hash

abbrev pub tenant_key : TenantRow → ℕ
tenant_key t = t.id

abbrev pub user_key : UserRow → ℕ
user_key u = u.id

abbrev pub get_tenant : ℕ → List TenantRow → Option TenantRow
get_tenant = find tenant_key

abbrev pub get_user : ℕ → List UserRow → Option UserRow
get_user = find user_key
