-- ===== src/Identity/Issued.antt =====
-- A token that the service issues is one that it reads back (internal/domain/token.go).
use zappermeow.Base.{
  ℕ, ◌<◌, ◌+◌, Bool, false, Option, none, some, ok, ◌≡◌, refl, ap, sym, ◌∙◌, arith, is_empty,
}
use zappermeow.Identity.Tokens.{
  Audience, platform, tenant, other, audience_of_text, TokenClaims, JwtClaims, Jwt, truncate, wire,
  claims, issue, parse, parse_verified, uuid_from_string, with_tenant,
}

-- What the libraries document: a text of a UUID is not empty and reads back, and a signed token verifies
-- until it expires.
pub record IsSound (j : Jwt) : Type 0 where
  pub uuid : (n : ℕ) → j.parse_uuid (j.uuid_text n) ≡ some n
  pub shown : (n : ℕ) → is_empty (j.uuid_text n) ≡ false
  pub verified :
      (c : JwtClaims) (t : j.Token) (now end_ : ℕ)
      → j.sign c ≡ some t
      → c.expires_at ≡ some end_
      → now < end_
      → j.verify now t ≡ some c

pub issue-eq-ok :
    (j : Jwt) (ttl now subject : ℕ) (a : Audience) (tenant_id : Option ℕ) (change : Bool)
    (t : j.Token) (c : TokenClaims)
    → issue j ttl now subject a tenant_id change ≡ ok (t, c)
    → (j.sign (wire j ttl now subject a tenant_id change) ≡ some t)
      × (c ≡ claims j ttl now subject a tenant_id change)
unfolding issue
issue-eq-ok j ttl now subject (other s) tenant_id change t c e = cc
issue-eq-ok j ttl now subject platform tenant_id change t c e = ground (arith, e)
issue-eq-ok j ttl now subject tenant none change t c e = cc
issue-eq-ok j ttl now subject tenant (some x) change t c e = ground (arith, e)

uuid-read : (j : Jwt) (n : ℕ) → IsSound j → uuid_from_string j (j.uuid_text n) ≡ some n
uuid-read j n sound = rw (sound.shown n) (sound.uuid n)

-- The wire form of a token reads back as its claims.
wire-read :
    (j : Jwt) (ttl now subject : ℕ) (a : Audience) (tenant_id : Option ℕ) (change : Bool)
    (t : j.Token) (c : TokenClaims)
    → IsSound j
    → (a ≡ platform → tenant_id ≡ none)
    → issue j ttl now subject a tenant_id change ≡ ok (t, c)
    → parse_verified j (some (wire j ttl now subject a tenant_id change))
      ≡ some (claims j ttl now subject a tenant_id change)
unfolding issue audience_of_text
wire-read j ttl now subject (other s) tenant_id change t c sound alone e = cc
wire-read j ttl now subject platform none change t c sound alone e =
    rw (uuid-read j subject sound) refl
wire-read j ttl now subject platform (some x) change t c sound alone e = cc (alone refl)
wire-read j ttl now subject tenant none change t c sound alone e = cc
wire-read j ttl now subject tenant (some x) change t c sound alone e =
    rw (uuid-read j subject sound, with_tenant, uuid-read j x sound) refl

-- With libraries that keep what they document: a token that was issued, for the platform without a
-- tenant, reads back as the claims that were returned with it, at every instant before its expiry.
pub issue-parse :
    (j : Jwt) (ttl now subject : ℕ) (a : Audience) (tenant_id : Option ℕ) (change : Bool)
    (t : j.Token) (c : TokenClaims) (later : ℕ)
    → IsSound j
    → (a ≡ platform → tenant_id ≡ none)
    → issue j ttl now subject a tenant_id change ≡ ok (t, c)
    → later < c.expires_at
    → parse j later t ≡ some c
unfolding parse
issue-parse j ttl now subject a tenant_id change t c later sound alone e early =
    let (made, same) = issue-eq-ok j ttl now subject a tenant_id change t c e in
    let w = wire j ttl now subject a tenant_id change in
    let before : later < truncate (now + ttl) = rw same at early in
    ap (parse_verified j) (sound.verified w t later (truncate (now + ttl)) made refl before)
    ∙ wire-read j ttl now subject a tenant_id change t c sound alone e
    ∙ ap some (sym same)
