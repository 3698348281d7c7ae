-- ===== src/Access/Keys.antt =====
-- internal/store/api_keys.sql.go, the revocation of internal/domain/services/apikeys.go and
-- internal/api/middleware/auth_apikey.go. The name of the
-- instance is left out of the principal.
use zappermeow.Base.{
  ℕ, Bool, false, ◌&&◌, not, List, [], ◌∷◌, Option, none, some, String, Result, ok, err, ◌==◌,
  if◌then◌else◌, select,
}
use zappermeow.Domain.Errors.{
  Error, err_internal, err_not_found, err_unauthenticated, err_tenant_suspended,
}
use zappermeow.Domain.Instance.{InstanceState}
use zappermeow.Store.Instances.{InstanceRow, Instances, get_instance}
use zappermeow.Store.Accounts.{
  ApiKeyStatus, TenantStatus, ApiKeyRow, TenantRow, SecurityEvent, Accounts, key_hash, tenant_key,
  EventType, EventResult, TargetType, Meta,
}
use zappermeow.Store.Table.{find, update}

abbrev is_of_tenant : ℕ → Option InstanceRow → Bool
is_of_tenant tenant none = false
is_of_tenant tenant (some i) = i.tenant_id == tenant

-- The conditions of RevokeAPIKey on a row.
abbrev pub is_revocable : ℕ → ℕ → ℕ → Instances → ApiKeyRow → Bool
is_revocable id instance tenant is k =
    (k.id == id) && (k.instance_id == instance) && is_of_tenant tenant (get_instance instance is)

abbrev coalesce : Option ℕ → ℕ → ℕ
coalesce none x = x
coalesce (some y) x = y

abbrev pub as_revoked : ℕ → ApiKeyRow → ApiKeyRow
as_revoked now k = record k {
  status = ApiKeyStatus.revoked;
  revoked_at = some (coalesce k.revoked_at now);
}

unfoldable pub revoke_api_key : ℕ → ℕ → ℕ → ℕ → Accounts → List ApiKeyRow
revoke_api_key now id instance tenant s =
    update (is_revocable id instance tenant s.instances) (as_revoked now) s.keys

-- The row that the statement returns; `none` is no row.
abbrev pub first : List ApiKeyRow → Option ApiKeyRow
first [] = none
first (k ∷ ks) = some k

unfoldable pub revoked_row : ℕ → ℕ → ℕ → Accounts → Option ApiKeyRow
revoked_row id instance tenant s =
    first (select (is_revocable id instance tenant s.instances) s.keys)

-- What can fail while a key is revoked, and the lookup of a request.
pub data KeyCall : Type 0 where
  begins revokes records commits looks_up : KeyCall

abbrev revoked_event : ℕ → ℕ → ApiKeyRow → SecurityEvent
revoked_event actor instance k = record {
  type = EventType.api_key_revoked;
  actor_user_id = some actor;
  target_type = TargetType.api_key;
  target_id = some k.id;
  result = EventResult.success;
  metadata = ("key_prefix", Meta.bytes k.key_prefix) ∷ ("instance_id", Meta.number instance) ∷ [];
}

-- The transaction: what is not committed is rolled back.
unfoldable pub revoke :
    (KeyCall → Bool) → ℕ → ℕ → ℕ → ℕ → ℕ → Accounts → Accounts × Result Error (Unit {0})
revoke down now tenant instance id actor s =
    if down KeyCall.begins
    then (s, err (err_internal "begin"))
    else if down KeyCall.revokes
    then (s, err (err_internal "revoke"))
    else elim (revoked_row id instance tenant s) [
      | none ↦ (s, err err_not_found)
      | some k ↦
          if down KeyCall.records
          then (s, err (err_internal "record"))
          else if down KeyCall.commits
          then (s, err (err_internal "commit"))
          else (
            record s {
              keys = revoke_api_key now id instance tenant s;
              events = revoked_event actor instance k ∷ s.events;
            },
            ok tt,
          )
    ]

-- The row that GetKeyForAuth joins.
pub record AuthRow : Type 0 where
  pub key : ApiKeyRow
  pub instance : InstanceRow
  pub tenant : TenantRow

abbrev pub join_tenant : List TenantRow → ApiKeyRow → Option InstanceRow → Option AuthRow
join_tenant ts k none = none
join_tenant ts k (some i) = elim (find tenant_key i.tenant_id ts) [
  | none ↦ none
  | some t ↦ some (record { key = k; instance = i; tenant = t })
]

abbrev pub join : Instances → List TenantRow → Option ApiKeyRow → Option AuthRow
join is ts none = none
join is ts (some k) = join_tenant ts k (get_instance k.instance_id is)

unfoldable pub get_key_for_auth : ℕ → Accounts → Option AuthRow
get_key_for_auth hash s = join s.instances s.tenants (find key_hash hash s.keys)

pub record Operator : Type 0 where
  pub instance_id : ℕ
  pub tenant_id : ℕ
  instance_state : InstanceState
  pub key_id : ℕ
  pub key_prefix : List ℕ
  key_label : Option String

abbrev pub operator : AuthRow → Operator
operator r = record {
  instance_id = r.key.instance_id;
  tenant_id = r.tenant.id;
  instance_state = r.instance.connection_state;
  key_id = r.key.id;
  key_prefix = r.key.key_prefix;
  key_label = r.key.label;
}

abbrev pub required : Error
required = err_unauthenticated "An API key is required"

abbrev pub invalid : Error
invalid = err_unauthenticated "The API key is invalid or has been revoked"

abbrev pub is_addressed : Option ℕ → ℕ → Bool
is_addressed none instance = false
is_addressed (some url) instance = url == instance

-- The checks on the row, in their order.
abbrev pub admit : Option ℕ → AuthRow → Result Error Operator
admit url r = elim r.key.status [
  | ApiKeyStatus.revoked ↦ err invalid
  | ApiKeyStatus.active ↦
      if not (is_addressed url r.key.instance_id) then err err_not_found else elim r.tenant.status [
        | TenantStatus.active ↦ ok (operator r)
        | _ ↦ err err_tenant_suspended
      ]
]

abbrev pub admit_found : Option ℕ → Option AuthRow → Result Error Operator
admit_found url none = err invalid
admit_found url (some r) = admit url r

-- `url` is the identifier that ParseID reads in the path, if it reads one. A failed lookup is answered
-- like an unknown key.
unfoldable pub authenticate :
    (List ℕ → ℕ) → (KeyCall → Bool) → List ℕ → Option ℕ → Accounts → Result Error Operator
authenticate sha256 down [] url s = err required
authenticate sha256 down (c ∷ cs) url s =
    if down KeyCall.looks_up
    then err invalid
    else admit_found url (get_key_for_auth (sha256 (c ∷ cs)) s)
