-- ===== src/Domain/Reason.antt =====
-- internal/domain/connectionevent.go: why a session stopped. The Go type is a string with fifteen
-- named values and the empty one; any other text is `other`.
pub mod Laws
use zappermeow.Base.{ℕ, Bool, true, false, ◌||◌, String, List, [], ◌∷◌, map}

pub data DisconnectReason : Type 0 where
  none : DisconnectReason
  network keepalive_timeout worker_lost stream_error : DisconnectReason
  proxy_connect_failed proxy_updated : DisconnectReason
  user_requested logged_out_from_phone temporary_ban session_replaced : DisconnectReason
  client_outdated connect_failure cat_refresh_failed : DisconnectReason
  logout_local_only tenant_suspended : DisconnectReason
  other : String → DisconnectReason

-- The stored text of a reason.
abbrev pub to_string : DisconnectReason → String
to_string none = ""
to_string network = "network"
to_string keepalive_timeout = "keepalive_timeout"
to_string worker_lost = "worker_lost"
to_string stream_error = "stream_error"
to_string proxy_connect_failed = "proxy_connect_failed"
to_string proxy_updated = "proxy_updated"
to_string user_requested = "user_requested"
to_string logged_out_from_phone = "logged_out_from_phone"
to_string temporary_ban = "temporary_ban"
to_string session_replaced = "session_replaced"
to_string client_outdated = "client_outdated"
to_string connect_failure = "connect_failure"
to_string cat_refresh_failed = "cat_refresh_failed"
to_string logout_local_only = "logout_local_only"
to_string tenant_suspended = "tenant_suspended"
to_string (other s) = s

-- Membership in the map `permanentReasons`.
abbrev pub is_permanent : DisconnectReason → Bool
is_permanent user_requested = true
is_permanent logged_out_from_phone = true
is_permanent temporary_ban = true
is_permanent session_replaced = true
is_permanent client_outdated = true
is_permanent connect_failure = true
is_permanent cat_refresh_failed = true
is_permanent logout_local_only = true
is_permanent tenant_suspended = true
is_permanent _ = false

-- The `switch` of `Valid`, after its two tests.
abbrev is_transient : DisconnectReason → Bool
is_transient network = true
is_transient keepalive_timeout = true
is_transient worker_lost = true
is_transient stream_error = true
is_transient proxy_connect_failed = true
is_transient proxy_updated = true
is_transient _ = false

abbrev is_none : DisconnectReason → Bool
is_none none = true
is_none _ = false

unfoldable pub is_valid : DisconnectReason → Bool
is_valid r = is_none r || is_permanent r || is_transient r

unfoldable permanent_reasons : List DisconnectReason
permanent_reasons =
    user_requested ∷ logged_out_from_phone ∷ temporary_ban ∷ session_replaced ∷ client_outdated
    ∷ connect_failure ∷ cat_refresh_failed ∷ logout_local_only ∷ tenant_suspended ∷ []

-- The list that the adoption query takes, as texts.
unfoldable pub permanent_reason_list : List String
unfolding permanent_reasons
permanent_reason_list = map to_string permanent_reasons
