-- ===== src/Identity/Gate.antt =====
-- internal/api/middleware/auth.go: which tokens open the administrative routes. `bearer` is what the
-- header holds after its scheme, if anything.
use zappermeow.Base.{
  ℕ, Bool, true, false, not, ◌&&◌, Option, none, some, Result, ok, err, ◌==◌, if◌then◌else◌,
}
use zappermeow.Domain.Errors.{
  Error, err_unauthenticated, err_wrong_audience, err_password_change_required,
  err_tenant_suspended,
}
use zappermeow.Store.Accounts.{Accounts, UserRow, TenantStatus, Role}
use zappermeow.Store.Users.{UserJoined, get_user_by_id}
use zappermeow.Identity.Login.{tenant_status_of, is_active_tenant}
use zappermeow.Identity.Tokens.{
  Audience, platform, tenant, Jwt, TokenClaims, parse, token_predates_password_change,
}

pub record Admin : Type 0 where
  pub user : UserRow
  pub tenant : TenantStatus
  pub claims : TokenClaims

abbrev pub same_audience : Audience → Audience → Bool
same_audience platform platform = true
same_audience tenant tenant = true
same_audience _ _ = false

-- The audience that a route wants; the route of the password change wants none.
abbrev pub is_wanted : Option Audience → Audience → Bool
is_wanted none a = true
is_wanted (some want) a = same_audience want a

abbrev is_tenant_admin : Role → Bool
is_tenant_admin r = elim r [ Role.tenant_admin ↦ true | _ ↦ false ]

abbrev same_id : Option ℕ → Option ℕ → Bool
same_id (some a) (some b) = a == b
same_id _ _ = false

-- The subject of a tenant's token is still an admin of the tenant that the claims name.
abbrev keeps_tenant : TokenClaims → UserRow → Bool
keeps_tenant c u = elim c.audience [
  | tenant ↦ is_tenant_admin u.role && same_id u.tenant_id c.tenant_id
  | _ ↦ true
]

abbrev pub stale : Error
stale = err_unauthenticated "The token is invalid or has expired"

abbrev bearer_required : Error
bearer_required = err_unauthenticated "A bearer token is required"

-- The checks against the row, in their order.
unfoldable pub admit_user : Bool → TokenClaims → UserJoined → Result Error Admin
admit_user enforce c r =
    if token_predates_password_change r.user c.issued_at
    then err stale
    else if enforce && r.user.must_change_password
    then err err_password_change_required
    else if not (is_active_tenant (tenant_status_of r.tenant_status))
    then err err_tenant_suspended
    else if not (keeps_tenant c r.user)
    then err stale
    else ok (record { user = r.user; tenant = tenant_status_of r.tenant_status; claims = c })

abbrev pub admit_row : Bool → TokenClaims → Option UserJoined → Result Error Admin
admit_row enforce c none = err stale
admit_row enforce c (some r) = admit_user enforce c r

-- `down` says that the lookup of the user fails, which is answered as an unknown user.
abbrev admit_claims :
    Option Audience → Bool → Bool → Option TokenClaims → Accounts → Result Error Admin
admit_claims want enforce down none s = err stale
admit_claims want enforce down (some c) s =
    if not (is_wanted want c.audience)
    then err err_wrong_audience
    else if down
    then err stale
    else admit_row enforce c (get_user_by_id c.subject s)

module _ (j : Jwt) (now : ℕ) (down : Bool) where
  unfoldable pub authenticate :
      Option Audience → Bool → Option j.Token → Accounts → Result Error Admin
  authenticate want enforce none s = err bearer_required
  authenticate want enforce (some raw) s = admit_claims want enforce down (parse j now raw) s

  -- The routes of the platform, of a tenant, and that of the password change.
  unfoldable platform_route : Option j.Token → Accounts → Result Error Admin
  platform_route = authenticate (some platform) true

  unfoldable pub tenant_route : Option j.Token → Accounts → Result Error Admin
  tenant_route = authenticate (some tenant) true

  unfoldable any_audience : Option j.Token → Accounts → Result Error Admin
  any_audience = authenticate none false
