-- ===== src/Access/Watching.antt =====
-- The access to the events of an instance (wsAuthenticator of internal/api/wsbridge.go). The upgrade does
-- not pass the middlewares, so it has its own checks. `as_token` reads the credential as a token.
use zappermeow.Base.{
  ℕ, Bool, true, false, not, List, Option, none, some, Result, ok, err, ◌==◌, if◌then◌else◌,
}
use zappermeow.Access.ApiKey.{api_key_prefix, has_prefix}
use zappermeow.Access.Connection.{Bucket}
use zappermeow.Access.Keys.{AuthRow, get_key_for_auth}
use zappermeow.Identity.Tokens.{Audience, platform, tenant, other, Jwt, TokenClaims, parse}
use zappermeow.Store.Accounts.{Accounts, ApiKeyStatus, TenantStatus}
use zappermeow.Store.Instances.{InstanceRow}
use zappermeow.Store.Tenants.{get_instance_by_id_and_tenant}
use zappermeow.Store.Users.{UserJoined, get_user_by_id}

pub data WatchError : Type 0 where
  no_credential forbidden not_found : WatchError

pub record Principal : Type 0 where
  pub tenant_id : ℕ
  pub bucket : Bucket

pub data WatchCall : Type 0 where
  reads_key reads_user reads_instance : WatchCall

abbrev is_in_force : TenantStatus → Bool
is_in_force s = elim s [ TenantStatus.active ↦ true | _ ↦ false ]

-- Unlike at the other doors, a user without a tenant is refused.
abbrev is_tenant_live : Option TenantStatus → Bool
is_tenant_live none = false
is_tenant_live (some s) = is_in_force s

abbrev admit_key : ℕ → AuthRow → Result WatchError Principal
admit_key instance r = elim r.key.status [
  | ApiKeyStatus.revoked ↦ err forbidden
  | ApiKeyStatus.active ↦
      if not (r.key.instance_id == instance)
      then err not_found
      else if is_in_force r.tenant.status
      then ok (record { tenant_id = r.tenant.id; bucket = Bucket.connection_key r.key.id })
      else err forbidden
]

abbrev admit_instance : ℕ → Option InstanceRow → Result WatchError Principal
admit_instance of_tenant none = err not_found
admit_instance of_tenant (some i) =
    ok (record { tenant_id = of_tenant; bucket = Bucket.connection_tenant of_tenant })

module _ (down : WatchCall → Bool) where
  unfoldable pub authorize_key : (List ℕ → ℕ) → List ℕ → ℕ → Accounts → Result WatchError Principal
  authorize_key sha256 secret instance s =
      if down WatchCall.reads_key
      then err no_credential
      else elim (get_key_for_auth (sha256 secret) s) [
        | none ↦ err no_credential
        | some r ↦ admit_key instance r
      ]

  -- The instance is looked up under the tenant that the claims name.
  abbrev admit_status : ℕ → ℕ → Bool → Accounts → Result WatchError Principal
  admit_status of_tenant instance active s =
      if not active
      then err forbidden
      else if down WatchCall.reads_instance
      then err not_found
      else admit_instance of_tenant (get_instance_by_id_and_tenant instance of_tenant s)

  abbrev pub admit_joined : ℕ → ℕ → Option UserJoined → Accounts → Result WatchError Principal
  admit_joined of_tenant instance none s = err forbidden
  admit_joined of_tenant instance (some r) s =
      admit_status of_tenant instance (is_tenant_live r.tenant_status) s

  abbrev pub admit_tenant : ℕ → ℕ → Audience → Option ℕ → Accounts → Result WatchError Principal
  admit_tenant subject instance platform of_tenant s = err forbidden
  admit_tenant subject instance (other a) of_tenant s = err forbidden
  admit_tenant subject instance tenant none s = err forbidden
  admit_tenant subject instance tenant (some of_tenant) s =
      if down WatchCall.reads_user
      then err forbidden
      else admit_joined of_tenant instance (get_user_by_id subject s) s

  abbrev pub admit_claims : ℕ → Option TokenClaims → Accounts → Result WatchError Principal
  admit_claims instance none s = err forbidden
  admit_claims instance (some c) s = admit_tenant c.subject instance c.audience c.tenant_id s

  module _ (j : Jwt) (now : ℕ) (as_token : List ℕ → j.Token) where
    unfoldable pub authorize_token : List ℕ → ℕ → Accounts → Result WatchError Principal
    authorize_token raw instance s = admit_claims instance (parse j now (as_token raw)) s

    unfoldable pub authorize : (List ℕ → ℕ) → List ℕ → ℕ → Accounts → Result WatchError Principal
    authorize sha256 credential instance s =
        if has_prefix credential api_key_prefix
        then authorize_key sha256 credential instance s
        else authorize_token credential instance s
