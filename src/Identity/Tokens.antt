-- ===== src/Identity/Tokens.antt =====
-- internal/domain/token.go and user.go: audiences, claims, and what a token carries. The JWT library
-- and the one of UUIDs are the arguments `Jwt`.
use zappermeow.Base.{
  ℕ, ◌+◌, ◌*◌, ◌/◌, Bool, false, ltb, String, List, [], ◌∷◌, Option, none, some, Result, ok, err,
  same_text, if◌then◌else◌, is_empty,
}
use zappermeow.Store.Accounts.{Role, UserRow}

pub data Audience : Type 0 where
  platform tenant : Audience
  other : String → Audience

abbrev pub audience_text : Audience → String
audience_text platform = "platform"
audience_text tenant = "tenant"
audience_text (other s) = s

-- `Audience(text)`.
unfoldable pub audience_of_text : String → Audience
audience_of_text s =
    if same_text s "platform" then platform else if same_text s "tenant" then tenant else other s

unfoldable pub role_audience : Role → Audience
role_audience Role.super_admin = platform
role_audience Role.tenant_admin = tenant
role_audience (Role.other s) = tenant

pub record TokenClaims : Type 0 where
  pub subject : ℕ
  pub audience : Audience
  pub tenant_id : Option ℕ
  password_change : Bool
  pub issued_at : ℕ
  pub expires_at : ℕ

-- The wire form. An absent tenant is the empty text.
pub record JwtClaims : Type 0 where
  pub subject : String
  pub audience : List String
  pub issued_at : Option ℕ
  pub expires_at : Option ℕ
  pub tenant_id : String
  password_change : Bool

-- What the libraries do under the signing key: `verify` is ParseWithClaims at an instant, with HS256
-- alone and a required expiry.
pub record Jwt : Type 1 where
  pub Token : Type 0
  pub sign : JwtClaims → Option Token
  pub verify : ℕ → Token → Option JwtClaims
  pub uuid_text : ℕ → String
  pub parse_uuid : String → Option ℕ

-- An instant is a number of nanoseconds.
abbrev pub second : ℕ
second = 1000000000

-- `Truncate(time.Second)`, which is also what `jwt.NewNumericDate` keeps.
abbrev pub truncate : ℕ → ℕ
truncate t = t / second * second

abbrev pub is_locked : ℕ → UserRow → Bool
is_locked now u = elim u.locked_until [ none ↦ false | some until ↦ ltb now until ]

unfoldable pub token_predates_password_change : UserRow → ℕ → Bool
token_predates_password_change u issued_at = ltb issued_at (truncate u.password_changed_at)

module _ (j : Jwt) where
  abbrev pub uuid_from_string : String → Option ℕ
  uuid_from_string raw = if is_empty raw then none else j.parse_uuid raw

  abbrev tenant_text : Option ℕ → String
  tenant_text none = ""
  tenant_text (some t) = j.uuid_text t

  abbrev pub wire : ℕ → ℕ → ℕ → Audience → Option ℕ → Bool → JwtClaims
  wire ttl now subject audience tenant_id password_change = record {
    subject = j.uuid_text subject;
    audience = audience_text audience ∷ [];
    issued_at = some (truncate now);
    expires_at = some (truncate (now + ttl));
    tenant_id = tenant_text tenant_id;
    password_change = password_change;
  }

  abbrev pub claims : ℕ → ℕ → ℕ → Audience → Option ℕ → Bool → TokenClaims
  claims ttl now subject audience tenant_id password_change = record {
    subject = subject;
    audience = audience;
    tenant_id = tenant_id;
    password_change = password_change;
    issued_at = truncate now;
    expires_at = truncate (now + ttl);
  }

  abbrev signed : Option j.Token → TokenClaims → Result String (j.Token × TokenClaims)
  signed none c = err "sign token"
  signed (some t) c = ok (t, c)

  -- The guards of Issue.
  abbrev refusal : Audience → Option ℕ → Option String
  refusal (other s) tenant_id = some "unknown audience"
  refusal tenant none = some "tenant audience requires a tenant id"
  refusal tenant (some t) = none
  refusal platform tenant_id = none

  unfoldable pub issue :
      ℕ → ℕ → ℕ → Audience → Option ℕ → Bool → Result String (j.Token × TokenClaims)
  issue ttl now subject audience tenant_id password_change = elim (refusal audience tenant_id) [
    | some reason ↦ err reason
    | none ↦
        signed (j.sign (wire ttl now subject audience tenant_id password_change))
          (claims ttl now subject audience tenant_id password_change)
  ]

  -- A zero time for an absent date.
  abbrev date : Option ℕ → ℕ
  date none = 0
  date (some t) = t

  abbrev read_claims : ℕ → Audience → Option ℕ → JwtClaims → TokenClaims
  read_claims subject audience tenant_id w = record {
    subject = subject;
    audience = audience;
    tenant_id = tenant_id;
    password_change = w.password_change;
    issued_at = date w.issued_at;
    expires_at = date w.expires_at;
  }

  abbrev pub with_tenant : ℕ → Option ℕ → JwtClaims → Option TokenClaims
  with_tenant subject none w = none
  with_tenant subject (some t) w = some (read_claims subject tenant (some t) w)

  -- The tenant that goes with the audience.
  abbrev parse_tenant : ℕ → Audience → JwtClaims → Option TokenClaims
  parse_tenant subject (other s) w = none
  parse_tenant subject platform w =
      if is_empty w.tenant_id then some (read_claims subject platform none w) else none
  parse_tenant subject tenant w = with_tenant subject (uuid_from_string w.tenant_id) w

  abbrev parse_audience : ℕ → List String → JwtClaims → Option TokenClaims
  parse_audience subject [] w = none
  parse_audience subject (a ∷ []) w = parse_tenant subject (audience_of_text a) w
  parse_audience subject (a ∷ b ∷ rest) w = none

  abbrev parse_subject : Option ℕ → JwtClaims → Option TokenClaims
  parse_subject none w = none
  parse_subject (some subject) w = parse_audience subject w.audience w

  abbrev pub parse_verified : Option JwtClaims → Option TokenClaims
  parse_verified none = none
  parse_verified (some w) = parse_subject (uuid_from_string w.subject) w

  -- Every failure is the one error ErrInvalidToken, which is `none`.
  unfoldable pub parse : ℕ → j.Token → Option TokenClaims
  parse now raw = parse_verified (j.verify now raw)
