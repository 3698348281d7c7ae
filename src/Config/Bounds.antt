-- ===== src/Config/Bounds.antt =====
-- What a configuration that passed the checks keeps (internal/config/config.go).
use zappermeow.Base.{
  ℕ, ◌*◌, ◌≤◌, ◌<◌, true, false, not, List, [], ◌∷◌, Option, none, some, String, ok, ◌≡◌, ◌||◌, leb,
  refl, sym, inl, inr, arith, ltb→lt, All, Result-cases,
}
use zappermeow.Domain.Validate.{byte_length}
use zappermeow.Config.{
  ServiceConfig, Check, checks, is_below_triple, failing, is_blank, validate, min_signing_key_len,
  load, apply_secrets,
}

failing_nil : (cs : List Check) → failing cs ≡ [] → All (λ (k : Check). k.0 ≡ true) cs
failing_nil [] e = tt
failing_nil ((true, problem) ∷ cs) e = (refl, failing_nil cs e)
failing_nil ((false, problem) ∷ cs) e = cc

below_triple-le :
    (expiry interval : ℕ)
    → not (is_below_triple expiry interval) ≡ true
    → 3 * interval < 9223372036854775808
    → 3 * interval ≤ expiry
below_triple-le expiry interval passed small = ground (arith, passed, small)

-- The timings that the leases and the logins rely on.
pub record IsSafe (c : ServiceConfig) : Type 0 where
  pub signed : min_signing_key_len ≤ byte_length c.jwt_signing_key
  lives : 0 < c.jwt_ttl
  locks : 0 < c.lockout_max_failures
  locks_for : 0 < c.lockout_window
  pub adopts : 0 < c.max_sessions_per_worker
  pub renews : 0 < c.lease_heartbeat_interval
  -- Unless the product overflows a duration.
  pub slack :
      3 * c.lease_heartbeat_interval < 9223372036854775808
      → 3 * c.lease_heartbeat_interval ≤ c.lease_expiry
  pub waits : 0 < c.claim_wait

validate-All :
    (parse_address : String → Option String) (c : ServiceConfig)
    → validate parse_address c ≡ ok tt
    → All (λ (k : Check). k.0 ≡ true) (checks parse_address c)
unfolding validate
validate-All parse_address c e = failing_nil (checks parse_address c) (ground arith)

validate-IsSafe :
    (parse_address : String → Option String) (c : ServiceConfig)
    → validate parse_address c ≡ ok tt
    → IsSafe c
validate-IsSafe parse_address c e =
    let all = validate-All parse_address c e in
    let given : not (is_blank c.jwt_signing_key) ≡ true = all.1.1.0 in
    let key : (is_blank c.jwt_signing_key
          || leb min_signing_key_len (byte_length c.jwt_signing_key))
        ≡ true =
      all.1.1.1.0 in
    let expiry : not (is_below_triple c.lease_expiry c.lease_heartbeat_interval) ≡ true =
      all.1.1.1.1.1.1.1.1.1.1.1.1.0 in
    record {
      signed = ground (arith, given, key);
      lives = ltb→lt 0 c.jwt_ttl all.1.1.1.1.0;
      locks = ltb→lt 0 c.lockout_max_failures all.1.1.1.1.1.0;
      locks_for = ltb→lt 0 c.lockout_window all.1.1.1.1.1.1.0;
      adopts = ltb→lt 0 c.max_sessions_per_worker all.1.1.1.1.1.1.1.1.1.0;
      renews = ltb→lt 0 c.lease_heartbeat_interval all.1.1.1.1.1.1.1.1.1.1.1.0;
      slack = below_triple-le c.lease_expiry c.lease_heartbeat_interval expiry;
      waits = ltb→lt 0 c.claim_wait all.1.1.1.1.1.1.1.1.1.1.1.1.1.0;
    }

-- A configuration that was loaded passed the checks.
pub load-IsSafe :
    (parse_address : String → Option String)
    (read : zappermeow.Config.Secret → zappermeow.Config.SecretFile) (parsed : Option ServiceConfig)
    (c : ServiceConfig)
    → load parse_address read parsed ≡ ok c
    → IsSafe c
unfolding load
load-IsSafe parse_address read none c e = cc
load-IsSafe parse_address read (some p) c e = elim (Result-cases (apply_secrets read p)) [
  | inr (f, failed) ↦ absurd (ground (arith, e, failed))
  | inl (c', there) ↦ elim (Result-cases (validate parse_address c')) [
    | inr (f, failed) ↦ absurd (ground (arith, e, there, failed))
    | inl (u, passed) ↦
        let same : c' ≡ c = ground (arith, e, there, passed) in
        validate-IsSafe parse_address c (rw (sym same) passed)
  ]
]
