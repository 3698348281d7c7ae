-- ===== src/Tests/Admission.antt =====
-- A key that is issued, and the routes of a session.
use zappermeow.Base.{◌*◌, Bool, true, false, [], ◌∷◌, ◌*◌, some, ok, ◌≡◌, refl}
use zappermeow.Access.ApiKey.{generate_api_key, fill, set_bytes}
use zappermeow.Access.Connection as Connection
use zappermeow.Access.Connection.{Bucket, ConnectionPrincipal, PrincipalKind}
use zappermeow.Access.Issuing.{IssueCall, CreatedApiKey, create, create_api_key, new_key}
use zappermeow.Access.Keys.{operator, authenticate}
use zappermeow.Access.Opening.{create-authenticate}
use zappermeow.Access.Scope.{authenticate-scoped}
use zappermeow.Domain.Validate.{
  trim_space, trim_left, trim_right, rune_count, validate_label, validate_password,
}
use zappermeow.Identity.Gate.{tenant_route, admit_user}
use zappermeow.Identity.Gate as Gate
use zappermeow.Identity.Login.{is_active_tenant, tenant_status_of}
use zappermeow.Identity.Tokens.{
  tenant, JwtClaims, second, wire, parse, audience_of_text, token_predates_password_change,
}
use zappermeow.Store.Instances.{InstanceRow, get_instance}
use zappermeow.Store.Table.{find}
use zappermeow.Store.Tenants.{get_instance_by_id_and_tenant}
use zappermeow.Store.Transaction.{transaction}
use zappermeow.Store.Users.{joined_status}
use zappermeow.Tests.Access.{desk, customer, digest, drawn, minted, reachable}
use zappermeow.Access.Watching.{WatchCall, authorize, authorize_key, authorize_token}
use zappermeow.Access.Unrevoked.{change-authorize}
use zappermeow.Identity.Passwords.{change}
use zappermeow.Tests.Identity.{tokens, policy, office, matches, changing}

abbrev issuing : IssueCall → Bool
issuing c = false

abbrev issued : CreatedApiKey
issued = record { key = new_key 30 2 7 (some "ci") minted; secret = minted.secret }

create-authenticate_example :
    (i : InstanceRow) × (get_instance_by_id_and_tenant 7 3 desk ≡ some i)
    × (authenticate digest reachable issued.secret
          (some 7)
          (create issuing digest (some drawn) 30 2 3 7 " ci" 9 desk).0
        ≡ ok (operator (record { key = issued.key; instance = i; tenant = customer })))
unfolding find create create_api_key transaction generate_api_key fill set_bytes trim_space
    trim_left trim_right rune_count validate_label
create-authenticate_example =
    create-authenticate digest issuing drawn 30 2 3 7 " ci" 9 desk
      (create issuing digest (some drawn) 30 2 3 7 " ci" 9 desk).0 issued customer reachable
      (some 7) refl refl refl refl

-- The admin of the tenant, by a token.
abbrev admin : ConnectionPrincipal
admin = record { kind = PrincipalKind.tenant_admin; instance_id = 7; tenant_id = 3; key_id = 0 }

authenticate-scoped_example :
    (i : InstanceRow) × (some admin.instance_id ≡ some 7)
    × (get_instance 7 office.instances ≡ some i)
    × (i.tenant_id ≡ 3)
    × (is_active_tenant (tenant_status_of (joined_status office.tenants (some 3))) ≡ true)
unfolding find Connection.authenticate tenant_route Gate.authenticate admit_user parse
    audience_of_text rune_count token_predates_password_change
authenticate-scoped_example =
    authenticate-scoped tokens 10 digest reachable false false []
      (some (wire tokens policy.ttl 0 4 tenant (some 3) false)) (some 7) office admin refl

abbrev watching : WatchCall → Bool
watching c = false

abbrev old : JwtClaims
old = wire tokens policy.ttl 0 4 tenant (some 3) false

-- The password is changed at 2 seconds; the token of the instant 0 still opens the channel at 3.
change-authorize_example :
    authorize watching tokens
      (3 * second)
      (λ raw. old)
      digest
      (1 ∷ [])
      7
      (change changing (2 * second) (λ p. some p) matches 4 "secret" "long secret" office).0
    ≡ ok (record { tenant_id = 3; bucket = Bucket.connection_tenant 3 })
unfolding find trim_space trim_left trim_right rune_count validate_password change transaction
    authorize authorize_key authorize_token parse audience_of_text
change-authorize_example =
    change-authorize changing (2 * second) (λ p. some p) matches 4 "secret" "long secret" office
      (change changing (2 * second) (λ p. some p) matches 4 "secret" "long secret" office).0
      watching tokens (3 * second) (λ raw. old) digest (1 ∷ []) 7 refl
