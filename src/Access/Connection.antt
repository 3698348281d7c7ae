-- ===== src/Access/Connection.antt =====
-- internal/api/middleware/auth_connection.go and ratelimit.go: the two credentials that open the routes
-- of a session, and the allowance that such a request draws from. `url` is the identifier that ParseID
-- reads in the path; the limiter of the library is an argument.
use zappermeow.Base.{
  ℕ, Bool, true, List, [], ◌∷◌, Option, none, some, Result, ok, err, ltb, not, if◌then◌else◌,
}
use zappermeow.Access.Keys as Keys
use zappermeow.Access.Keys.{KeyCall, Operator}
use zappermeow.Domain.Errors.{Error, err_not_found, err_unauthenticated, err_rate_limited}
use zappermeow.Identity.Gate.{Admin, tenant_route}
use zappermeow.Identity.Tokens.{Jwt}
use zappermeow.Store.Accounts.{Accounts}
use zappermeow.Store.Instances.{InstanceRow}
use zappermeow.Store.Tenants.{get_instance_by_id_and_tenant}

pub data PrincipalKind : Type 0 where
  api_key tenant_admin : PrincipalKind

-- For an admin the key is the zero one.
pub record ConnectionPrincipal : Type 0 where
  pub kind : PrincipalKind
  pub instance_id : ℕ
  pub tenant_id : ℕ
  pub key_id : ℕ

-- A bucket of the limiter.
pub data Bucket : Type 0 where
  login operational connection_key connection_tenant : ℕ → Bucket

-- A key counts for itself, an admin for the tenant.
unfoldable rate_limit_key : ConnectionPrincipal → Bucket
rate_limit_key p = elim p.kind [
  | PrincipalKind.api_key ↦ Bucket.connection_key p.key_id
  | PrincipalKind.tenant_admin ↦ Bucket.connection_tenant p.tenant_id
]

abbrev principal_of_key : Operator → ConnectionPrincipal
principal_of_key o = record {
  kind = PrincipalKind.api_key;
  instance_id = o.instance_id;
  tenant_id = o.tenant_id;
  key_id = o.key_id;
}

abbrev principal_of_admin : InstanceRow → ConnectionPrincipal
principal_of_admin i = record {
  kind = PrincipalKind.tenant_admin;
  instance_id = i.id;
  tenant_id = i.tenant_id;
  key_id = 0;
}

abbrev by_key : Result Error Operator → Result Error ConnectionPrincipal
by_key (err e) = err e
by_key (ok o) = ok (principal_of_key o)

abbrev pub found : Option InstanceRow → Result Error ConnectionPrincipal
found none = err err_not_found
found (some i) = ok (principal_of_admin i)

-- `down` says that the lookup of the instance fails, which is answered like one that is not there.
abbrev pub scoped : Bool → Option ℕ → ℕ → Accounts → Result Error ConnectionPrincipal
scoped down none tenant s = err err_not_found
scoped down (some id) tenant s =
    if down then err err_not_found else found (get_instance_by_id_and_tenant id tenant s)

abbrev by_admin : Bool → Option ℕ → Accounts → Result Error Admin → Result Error ConnectionPrincipal
by_admin down url s (err e) = err e
by_admin down url s (ok a) = elim a.user.tenant_id [
  | none ↦ err (err_unauthenticated "A tenant token is required")
  | some tenant ↦ scoped down url tenant s
]

module _ (j : Jwt) (now : ℕ) (sha256 : List ℕ → ℕ) (down_key : KeyCall → Bool)
    (down down_user : Bool) where
  -- `token` is the header of the key; it wins when both are there.
  unfoldable pub authenticate :
      List ℕ → Option j.Token → Option ℕ → Accounts → Result Error ConnectionPrincipal
  authenticate (c ∷ cs) bearer url s = by_key (Keys.authenticate sha256 down_key (c ∷ cs) url s)
  authenticate [] bearer url s = by_admin down url s (tenant_route j now down_user bearer s)

-- How many requests the limiter allows for a bucket, which moves on; `none` is Redis being away.
unfoldable pub limit :
    {L R : Type 0}
    → (Bucket → L → Option ℕ × L)
    → Option Bucket
    → (L → Result Error R × L)
    → L
    → Result Error R × L
limit allow none next l = next l
limit allow (some key) next l =
    let (answer, l') = allow key l in
    let passed = next l' in
    elim answer [ none ↦ passed | some n ↦ if ltb n 1 then (err err_rate_limited, l') else passed ]

-- The same question outside of the chain of handlers; Redis being away lets it pass.
unfoldable allow_key : {L : Type 0} → (Bucket → L → Option ℕ × L) → Bucket → L → Bool × L
allow_key allow key l =
    let (answer, l') = allow key l in (elim answer [ none ↦ true | some n ↦ not (ltb n 1) ], l')
