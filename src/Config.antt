-- ===== src/Config.antt =====
-- internal/config/config.go: the configuration of the service, the secrets laid over it and the checks at
-- its start. An integer or a duration, in nanoseconds, that is negative reads as 0, which every check
-- refuses as well; the numbers are unbounded. Reading a secret and an address are arguments.
use zappermeow.Base.{
  ◌%◌, ℕ, zero, suc, ◌+◌, ◌*◌, Bool, true, false, not, ◌||◌, ◌&&◌, List, [], ◌∷◌, ◌++◌, Option,
  none, some, String, Result, ok, err, ◌>>=◌, ltb, leb, ◌==◌, if◌then◌else◌, is_empty,
}
use zappermeow.Domain.Validate.{trim_space, byte_length}
pub mod Bounds
pub mod Ownership

-- The fields that are checked or read by the modelled parts.
pub record ServiceConfig : Type 0 where
  pub database_url : String
  pub redis_addr : String
  pub redis_password : String
  pub jwt_signing_key : String
  pub jwt_ttl : ℕ
  pub bootstrap_email : String
  pub bootstrap_password : String
  pub lockout_max_failures : ℕ
  pub lockout_window : ℕ
  pub login_rate_limit : ℕ
  pub operational_rate_limit : ℕ
  pub secrets_dir : String
  pub max_sessions_per_worker : ℕ
  pub pairing_window : ℕ
  pub lease_heartbeat_interval : ℕ
  pub lease_expiry : ℕ
  pub reconcile_interval : ℕ
  pub claim_wait : ℕ
  pub connection_events_retention : ℕ

-- `expiry < 3*interval` on durations, which are int64: a product that wraps to a negative one is below
-- every expiry.
abbrev pub is_below_triple : ℕ → ℕ → Bool
is_below_triple expiry interval =
    let product = (3 * interval) % 18446744073709551616 in
    ltb product 9223372036854775808 && ltb expiry product

abbrev pub min_signing_key_len : ℕ
min_signing_key_len = 64

abbrev pub is_blank : String → Bool
is_blank s = is_empty (trim_space s)

abbrev is_positive : ℕ → Bool
is_positive n = ltb 0 n

abbrev is_read : Option String → Bool
is_read none = false
is_read (some address) = true

-- A check and the problem that it appends where it fails.
abbrev pub Check : Type 0
Check = Bool × String

abbrev pub failing : List Check → List String
failing [] = []
failing ((passes, problem) ∷ cs) = if passes then failing cs else problem ∷ failing cs

module _ (parse_address : String → Option String) where
  -- In the order of the code; the prefix of a variable's name is left out. The length of the signing key
  -- is checked where there is one, and the credentials of the bootstrap where there is an address.
  abbrev pub checks : ServiceConfig → List Check
  checks c =
      let no_bootstrap = is_empty c.bootstrap_email in
      (not (is_blank c.database_url), "DATABASE_URL is required")
      ∷ (not (is_blank c.redis_addr), "REDIS_ADDR is required")
      ∷ (not (is_blank c.jwt_signing_key), "JWT_SIGNING_KEY is required")
      ∷ (
        is_blank c.jwt_signing_key || leb min_signing_key_len (byte_length c.jwt_signing_key),
        "JWT_SIGNING_KEY must be at least 64 characters",
      )
      ∷ (is_positive c.jwt_ttl, "JWT_TTL must be positive")
      ∷ (is_positive c.lockout_max_failures, "LOCKOUT_MAX_FAILURES must be at least 1")
      ∷ (is_positive c.lockout_window, "LOCKOUT_WINDOW must be positive")
      ∷ (is_positive c.login_rate_limit, "LOGIN_RATE_LIMIT must be at least 1")
      ∷ (is_positive c.operational_rate_limit, "OP_RATE_LIMIT must be at least 1")
      ∷ (is_positive c.max_sessions_per_worker, "MAX_SESSIONS_PER_WORKER must be at least 1")
      ∷ (is_positive c.pairing_window, "PAIRING_WINDOW must be positive")
      ∷ (is_positive c.lease_heartbeat_interval, "LEASE_HEARTBEAT_INTERVAL must be positive")
      ∷ (
        not (is_below_triple c.lease_expiry c.lease_heartbeat_interval),
        "LEASE_EXPIRY must be at least 3x LEASE_HEARTBEAT_INTERVAL",
      )
      ∷ (is_positive c.claim_wait, "CLAIM_WAIT must be positive")
      ∷ (is_positive c.reconcile_interval, "RECONCILE_INTERVAL must be positive")
      ∷ (is_positive c.connection_events_retention, "CONNECTION_EVENTS_RETENTION must be positive")
      ∷ (
        no_bootstrap || is_read (parse_address c.bootstrap_email),
        "BOOTSTRAP_EMAIL is not a valid email address",
      )
      ∷ (no_bootstrap || not (is_empty c.bootstrap_password), "BOOTSTRAP_PASSWORD is required")
      ∷ []

  unfoldable pub validate : ServiceConfig → Result (List String) (Unit {0})
  validate c = elim (failing (checks c)) [ [] ↦ ok tt | p ∷ ps ↦ err (p ∷ ps) ]

-- The secrets, by the names of their files.
pub data Secret : Type 0 where
  database_url redis_password jwt_signing_key bootstrap_email bootstrap_password : Secret

abbrev secret_files : List Secret
secret_files =
    Secret.database_url ∷ Secret.redis_password ∷ Secret.jwt_signing_key ∷ Secret.bootstrap_email
    ∷ Secret.bootstrap_password ∷ []

abbrev set_secret : Secret → String → ServiceConfig → ServiceConfig
set_secret Secret.database_url v c = record c { database_url = v }
set_secret Secret.redis_password v c = record c { redis_password = v }
set_secret Secret.jwt_signing_key v c = record c { jwt_signing_key = v }
set_secret Secret.bootstrap_email v c = record c { bootstrap_email = v }
set_secret Secret.bootstrap_password v c = record c { bootstrap_password = v }

-- What reading a file gives.
pub data SecretFile : Type 0 where
  missing unreadable : SecretFile
  holds : String → SecretFile

abbrev with_secret : Secret → SecretFile → ServiceConfig → Result (List String) ServiceConfig
with_secret name SecretFile.missing c = ok c
with_secret name SecretFile.unreadable c = err ("read secret" ∷ [])
with_secret name (SecretFile.holds raw) c =
    let v = trim_space raw in if is_empty v then ok c else ok (set_secret name v c)

abbrev overlay :
    (Secret → SecretFile) → List Secret → ServiceConfig → Result (List String) ServiceConfig
overlay read [] c = ok c
overlay read (name ∷ names) c = do c' ← with_secret name (read name) c; overlay read names c'

-- A file wins over the environment. The code ranges over a map, whose order shows in no success.
unfoldable pub apply_secrets :
    (Secret → SecretFile) → ServiceConfig → Result (List String) ServiceConfig
apply_secrets read c = if is_empty c.secrets_dir then ok c else overlay read secret_files c

-- `parsed` is what the library reads from the environment.
unfoldable pub load :
    (String → Option String)
    → (Secret → SecretFile)
    → Option ServiceConfig
    → Result (List String) ServiceConfig
load parse_address read none = err ("parse environment" ∷ [])
load parse_address read (some parsed) = do
  c ← apply_secrets read parsed
  _ ← validate parse_address c
  ok c
