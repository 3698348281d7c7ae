-- ===== src/Tests/Admin.antt =====
-- A tenant's suspension and deletion, and another tenant's instance.
use zappermeow.Base.{ℕ, Bool, true, false, [], ◌∷◌, some, ok, err, ◌≡◌, ◌≢◌, refl}
use zappermeow.Access.Keys as Keys
use zappermeow.Access.Keys.{Operator}
use zappermeow.Admin.Instances as Instances
use zappermeow.Admin.Isolation.{delete-foreign, end_session}
use zappermeow.Rpc.Client.{no_owner}
use zappermeow.Service.Front.{Sessions}
use zappermeow.Admin.Suspension.{set_status-suspended}
use zappermeow.Admin.Projection.{Fleet, project_status}
use zappermeow.Admin.Recording.{AdminCall}
use zappermeow.Admin.Tenants.{decide_status, set_status, delete, is_valid}
use zappermeow.Lease.{acquire, not_acquired}
use zappermeow.Service.{apply_tenant_status}
use zappermeow.Tests.Service.{fine}
use zappermeow.Domain.Errors.{err_not_found}
use zappermeow.Domain.Validate.{validate_name, trim_space, trim_left, trim_right, rune_count}
use zappermeow.Identity.Gate.{Admin, authenticate}
use zappermeow.Identity.Login.{LoginResult, login}
use zappermeow.Identity.Tokens.{tenant, JwtClaims, claims, wire, parse, audience_of_text}
use zappermeow.Store.Users.{by_email}
use zappermeow.Store.Accounts.{Accounts, TenantRow, TenantStatus}
use zappermeow.Store.Table.{find, update}
use zappermeow.Store.Tenants.{set_tenant_status, count_tenant_cascade, delete_tenant_by_id}
use zappermeow.Store.Transaction.{transaction}
use zappermeow.Tests.Access.{key, digest, reachable}
use zappermeow.Tests.Identity.{tokens, same, matches, policy, person, office, answering}
use zappermeow.Tests.Workers.{resting, idle, config}

abbrev working : AdminCall → Bool
working c = false

operations : Unit {0}
unfolding find update by_email trim_left trim_right trim_space rune_count parse audience_of_text
    transaction decide_status set_status project_status apply_tenant_status set_tenant_status
    is_valid delete count_tenant_cascade delete_tenant_by_id
operations = tt

abbrev fleet : Fleet
fleet = (idle.leases, idle.redis)

abbrev suspended_row : TenantRow
suspended_row = record { id = 3; name = "ACME"; status = TenantStatus.suspended; updated_at = 50 }

abbrev closed : Accounts × Fleet
closed =
    (set_status working 50 (project_status config.manager fine 50) 3 TenantStatus.suspended 9
      (office, fleet)).0

abbrev token : JwtClaims
token = wire tokens policy.ttl 0 4 tenant (some 3) false

set_status-suspended_example :
    ((res : LoginResult JwtClaims)
      → (login policy answering 60 tokens same matches
          (record { email = "ada@acme"; password = "secret" })
          closed.0).1
        ≢ ok res)
    × ((a : Admin) → authenticate tokens 60 false (some tenant) true (some token) closed.0 ≢ ok a)
    × ((o : Operator) → Keys.authenticate digest reachable (2 ∷ 3 ∷ []) (some 7) closed.0 ≢ ok o)
    × ((acquire config.manager false 60 7 closed.1.0).0 ≡ err not_acquired)
    × (closed.0.users ≡ office.users)
    × (closed.0.keys ≡ office.keys)
unfolding operations
set_status-suspended_example =
    set_status-suspended working config.manager fine 50 3 9 office fleet closed suspended_row person
      key resting policy answering 60 tokens same matches
      (record { email = "ada@acme"; password = "secret" }) false true (some tenant) token
      (claims tokens policy.ttl 0 4 tenant (some 3) false) digest reachable (2 ∷ 3 ∷ []) (some 7)
      config.manager refl refl refl refl refl refl refl refl refl

abbrev emptied : Accounts
emptied = (delete working 50 3 "ACME" 9 office).0

-- No worker has any session.
abbrev nobody : Sessions ℕ
nobody = record {
  connect = λ id now v. (err no_owner, v);
  disconnect = λ id now v. (err no_owner, v);
  pair_phone = λ id phone replace now v. (err no_owner, v);
  logout = λ id allow now v. (err no_owner, v);
  apply_settings = λ id proxy passive now v. (err no_owner, v);
  submit_passkey_response = λ id json now v. (err no_owner, v);
  confirm_passkey = λ id now v. (err no_owner, v);
  identity_verification_codes = λ id contact now v. (err no_owner, v);
}

delete-foreign_example :
    let v =
      Instances.delete working
        (end_session nobody config.manager fine 50)
        7
        4
        9
        (office, (fleet, ([], 0))) in
    (Instances.get working 4 7 office ≡ err err_not_found)
    × (Instances.rename working 50 same 7 4 "mine" 9 office ≡ (office, err err_not_found))
    × (v.1 ≡ err err_not_found)
    × (v.0.0 ≡ office)
    × ((acquire config.manager false 60 7 v.0.1.0.0).0 ≡ err not_acquired)
unfolding find validate_name trim_space trim_left trim_right rune_count
delete-foreign_example =
    delete-foreign working 50 same 7 4 9 "mine" nobody config.manager fine office (fleet, ([], 0))
      config.manager 60 (λ c. refl) (λ c. refl) refl refl (λ v. refl)
