-- ===== src/Tests/Settings.antt =====
-- A configuration, and the proxy of an instance.
use Prim.Native.String.{String}
use zappermeow.Base.{ℕ, List, Bool, false, [], ◌∷◌, Option, none, some, ◌≡◌, refl, arith}
use zappermeow.Config.{ServiceConfig, Secret, SecretFile, load, apply_secrets, validate}
use zappermeow.Config.Ownership.{load-exclusive}
use zappermeow.Domain.Proxy.{Url, Urls}
use zappermeow.Domain.Validate.{trim_space, trim_left, trim_right, byte_length}
use zappermeow.Lease.Exclusive.{IsRefused, IsFenced, IsLive}
use zappermeow.Lease.Trace.{Call, acquires, heartbeats, run, step}
use zappermeow.Service.Masking.{status-hides_password}
use zappermeow.Service.Status.{StatusCall, status}
use zappermeow.Store.Instances.{set_instance_proxy}
use zappermeow.Store.Table.{find}
use zappermeow.Tests.Leases.{owned, second}
use zappermeow.Tests.Workers.{resting}

-- No address is read.
abbrev unread : String → Option String
unread s = none

abbrev no_files : Secret → SecretFile
no_files name = SecretFile.missing

abbrev defaults : ServiceConfig
defaults = record {
  database_url = "postgres://db";
  redis_addr = "localhost:6379";
  redis_password = "";
  jwt_signing_key = "0123456789012345678901234567890123456789012345678901234567890123";
  jwt_ttl = 3600;
  bootstrap_email = "";
  bootstrap_password = "";
  lockout_max_failures = 5;
  lockout_window = 900;
  login_rate_limit = 30;
  operational_rate_limit = 600;
  secrets_dir = "/run/secrets";
  max_sessions_per_worker = 200;
  pairing_window = 180;
  lease_heartbeat_interval = 10;
  lease_expiry = 30;
  reconcile_interval = 15;
  claim_wait = 3;
  connection_events_retention = 2592000;
}

-- The owner renews at 125, as another worker tries before and after.
abbrev contested : List (ℕ × Call)
contested = (120, acquires 7 2 92) ∷ (125, heartbeats 1) ∷ (140, acquires 7 2 92) ∷ []

load-exclusive_example :
    let u = run 30 contested (owned ∷ []) in
    IsRefused second 150 7 u
    × (second.worker_id ≡ 1 → IsFenced second 7 4 u)
    × IsLive second 150 7 4 u
unfolding find run step load apply_secrets validate trim_space trim_left trim_right byte_length
load-exclusive_example =
    load-exclusive unread no_files (some defaults) defaults 1 7 4 100 contested (owned ∷ []) owned
      second 150 refl (omega arith) refl refl
      (record { keyed = refl; owner = refl; fenced = refl; renewed = refl; wanted = refl })
      (ground arith) (omega arith)

abbrev proxy : Url
proxy = record {
  scheme = "http";
  username = some "u";
  password = none;
  host = "proxy:3128";
  hostname = "proxy";
  rest = "";
}

-- Every text is that proxy, with the text as its password.
abbrev urls : Urls
urls = record { parse = λ raw. some (record proxy { password = some raw }); print = λ u. u.host }

abbrev told : StatusCall → Bool
told c = false

status-hides_password_example :
    status urls told 3 7 (set_instance_proxy 100 7 (some "http://u:a@proxy:3128") (resting ∷ []))
    ≡ status urls told 3 7 (set_instance_proxy 100 7 (some "http://u:b@proxy:3128") (resting ∷ []))
unfolding trim_space trim_left trim_right
status-hides_password_example =
    status-hides_password urls told 100 3 7 "http://u:a@proxy:3128" "http://u:b@proxy:3128"
      "http://u:a@proxy:3128" "http://u:b@proxy:3128" proxy (resting ∷ []) refl refl refl refl
