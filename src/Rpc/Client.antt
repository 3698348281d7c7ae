-- ===== src/Rpc/Client.antt =====
-- internal/api/sessionclient/client.go: finding the owner of a session and calling it, with one retry;
-- and internal/domain/services/connection.go: what its errors become for the tenant. Redis's cached
-- owner is the state; the pool of connections is a way to reach an address, which gRPC provides.
use zappermeow.Base.{
  ℕ, Bool, true, false, not, ◌||◌, String, Option, none, some, Result, ok, err, ◌==◌, if◌then◌else◌,
}
use zappermeow.Domain.Instance.{InstanceState}
use zappermeow.Domain.Errors.{
  Error, err_internal, err_instance_not_paired, err_already_paired, err_pairing_in_progress,
  err_invalid_phone_number, err_session_unavailable, err_no_passkey_challenge, err_no_passkey_code,
  err_instance_not_connected, err_identity_not_resolvable, err_invalid_contact,
  err_cannot_verify_self, err_contact_unavailable, err_whatsapp_unavailable,
  err_session_not_running,
}
use zappermeow.Lease.{LeaseError, Owner}
use zappermeow.Rpc.{GrpcCode, Message, RpcStatus}
use zappermeow.Rpc.Server.{SessionState}

pub record CachedOwner : Type 0 where
  pub addr : ℕ
  pub generation : ℕ

pub data ClientError : Type 0 where
  no_owner : ClientError
  failed : String → ClientError
  rpc : RpcStatus → ClientError

-- Reading the lease; an address of 0 is the empty one.
abbrev pub owner_read : Result LeaseError Owner → Result ClientError CachedOwner
owner_read (err LeaseError.not_acquired) = err no_owner
owner_read (err LeaseError.wrong_generation) = err (failed "resolve owner")
owner_read (err (LeaseError.failed t)) = err (failed "resolve owner")
owner_read (ok o) =
    if not o.live || (o.grpc_addr == 0)
    then err no_owner
    else ok (record { addr = o.grpc_addr; generation = o.generation })

abbrev pub cached_by : Result ClientError CachedOwner → Option CachedOwner → Option CachedOwner
cached_by (ok o) old = some o
cached_by (err e) old = old

-- The owner, and what the cache then holds.
unfoldable pub resolve :
    Bool
    → Result LeaseError Owner
    → Option CachedOwner
    → Result ClientError CachedOwner × Option CachedOwner
resolve true read (some o) =
    if o.addr == 0 then (owner_read read, cached_by (owner_read read) (some o)) else (ok o, some o)
resolve true read none = (owner_read read, cached_by (owner_read read) none)
resolve false read cache = (owner_read read, cached_by (owner_read read) cache)

abbrev pub should_retry : RpcStatus → Bool
should_retry s = elim s.code [
  | GrpcCode.unavailable ↦ true
  | GrpcCode.failed_precondition ↦ elim s.message [ Message.wrong_generation ↦ true | _ ↦ false ]
  | _ ↦ false
]

-- `W` is the state of the workers; `read` reads the lease; `run` runs the command at an owner.
abbrev Answer : Type 0 → Type 0 → Type 0
Answer A W = Result ClientError A × (Option CachedOwner × W)

module _ {W A : Type 0} (read : W → Result LeaseError Owner)
    (run : CachedOwner → W → Result RpcStatus A × W) where
  abbrev pub finished : Option CachedOwner → Result RpcStatus A × W → Answer A W
  finished cache (ok a, w) = (ok a, (cache, w))
  finished cache (err s, w) = (err (rpc s), (cache, w))

  -- The second attempt reads the lease.
  abbrev pub again : Result ClientError CachedOwner × Option CachedOwner → W → Answer A W
  again (err e, cache) w = (err e, (cache, w))
  again (ok o, cache) w = finished cache (run o w)

  abbrev pub first_answer : Option CachedOwner → Result RpcStatus A × W → Answer A W
  first_answer cache (ok a, w) = (ok a, (cache, w))
  first_answer cache (err s, w) =
      if should_retry s then again (resolve false (read w) none) w else (err (rpc s), (cache, w))

  abbrev pub first : Result ClientError CachedOwner × Option CachedOwner → W → Answer A W
  first (err e, cache) w = (err e, (cache, w))
  first (ok o, cache) w = first_answer cache (run o w)

  unfoldable pub call : Option CachedOwner → W → Answer A W
  call cache w = first (resolve true (read w) cache) w

-- A state the client does not know reads as connecting.
unfoldable pub service_state : SessionState → InstanceState
service_state SessionState.registered = InstanceState.registered
service_state SessionState.pairing = InstanceState.pairing
service_state SessionState.connecting = InstanceState.connecting
service_state SessionState.connected = InstanceState.connected
service_state SessionState.disconnected = InstanceState.disconnected
service_state SessionState.logged_out = InstanceState.logged_out
service_state SessionState.banned = InstanceState.banned
service_state SessionState.unspecified = InstanceState.connecting

-- The last switch, on the code alone.
abbrev by_code : GrpcCode → Error
by_code GrpcCode.unavailable = err_session_unavailable
by_code GrpcCode.failed_precondition = err_session_unavailable
by_code _ = err_internal "session command failed"

abbrev by_message : RpcStatus → Error
by_message s = elim s.message [
  | Message.upstream_failure t ↦ err_whatsapp_unavailable
  | Message.unknown_instance ↦ err_session_not_running
  | Message.not_paired ↦ err_instance_not_paired
  | Message.already_paired ↦ err_already_paired
  | Message.invalid_phone ↦ err_invalid_phone_number
  | Message.pairing_running ↦ err_pairing_in_progress
  | Message.no_passkey_challenge ↦ err_no_passkey_challenge
  | Message.no_passkey_code ↦ err_no_passkey_code
  | Message.not_connected ↦ err_instance_not_connected
  | Message.invalid_contact ↦ err_invalid_contact
  | Message.identity_not_resolvable ↦ err_identity_not_resolvable
  | Message.cannot_verify_self ↦ err_cannot_verify_self
  | Message.contact_unavailable ↦ err_contact_unavailable
  | _ ↦ by_code s.code
]

unfoldable pub translate_session_error : ClientError → Error
translate_session_error no_owner = err_session_unavailable
translate_session_error (failed t) = err_internal t
translate_session_error (rpc s) = by_message s
