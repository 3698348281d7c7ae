-- ===== src/Rpc/Server.antt =====
-- internal/worker/grpcserver.go: the fence before every command, the mapping of errors and states.
use zappermeow.Base.{ℕ, Bool, String, Option, none, some, Result, ok, err, if◌then◌else◌}
use zappermeow.Domain.Instance.{InstanceState}
use zappermeow.Lease.{LeaseError, check_generation}
use zappermeow.Wa.Session.{SessionError}
use zappermeow.Worker.State.{WorkerError, Config, World}
use zappermeow.Rpc.{GrpcCode, Message, RpcStatus, status_of}

pub data SessionState : Type 0 where
  unspecified registered pairing connecting connected disconnected logged_out banned : SessionState

unfoldable pub state_to_proto : InstanceState → SessionState
state_to_proto InstanceState.registered = registered
state_to_proto InstanceState.pairing = pairing
state_to_proto InstanceState.connecting = connecting
state_to_proto InstanceState.connected = connected
state_to_proto InstanceState.disconnected = disconnected
state_to_proto InstanceState.logged_out = logged_out
state_to_proto InstanceState.banned = banned
state_to_proto (InstanceState.other s) = unspecified

unfoldable pub state_from_proto : SessionState → InstanceState
state_from_proto registered = InstanceState.registered
state_from_proto pairing = InstanceState.pairing
state_from_proto connecting = InstanceState.connecting
state_from_proto connected = InstanceState.connected
state_from_proto disconnected = InstanceState.disconnected
state_from_proto logged_out = InstanceState.logged_out
state_from_proto banned = InstanceState.banned
state_from_proto unspecified = InstanceState.other ""

abbrev text_of_lease : LeaseError → String
text_of_lease LeaseError.not_acquired = "lease: not acquired"
text_of_lease LeaseError.wrong_generation = "lease: wrong generation"
text_of_lease (LeaseError.failed t) = t

abbrev upstream : String → RpcStatus
upstream t = status_of GrpcCode.unavailable (Message.upstream_failure t)

-- The errors of the session; those with no case of their own are upstream failures.
abbrev translate_session : SessionError → RpcStatus
translate_session SessionError.not_paired =
    status_of GrpcCode.failed_precondition Message.not_paired
translate_session SessionError.already_paired =
    status_of GrpcCode.failed_precondition Message.already_paired
translate_session SessionError.invalid_phone_number =
    status_of GrpcCode.invalid_argument Message.invalid_phone
translate_session SessionError.pairing_running = status_of GrpcCode.aborted Message.pairing_running
translate_session SessionError.no_passkey_challenge =
    status_of GrpcCode.failed_precondition Message.no_passkey_challenge
translate_session SessionError.no_passkey_code =
    status_of GrpcCode.failed_precondition Message.no_passkey_code
translate_session SessionError.not_connected =
    status_of GrpcCode.failed_precondition Message.not_connected
translate_session SessionError.invalid_contact =
    status_of GrpcCode.invalid_argument Message.invalid_contact
translate_session SessionError.invalid_passkey_response =
    status_of GrpcCode.invalid_argument Message.invalid_contact
translate_session SessionError.identity_not_resolvable =
    status_of GrpcCode.not_found Message.identity_not_resolvable
translate_session SessionError.cannot_verify_self =
    status_of GrpcCode.invalid_argument Message.cannot_verify_self
translate_session SessionError.contact_unavailable =
    status_of GrpcCode.not_found Message.contact_unavailable
translate_session SessionError.session_closed = upstream "session closed"
translate_session SessionError.proxy_connect_failed = upstream "proxy connect failed"
translate_session (SessionError.other t) = upstream t

unfoldable pub translate : WorkerError → RpcStatus
translate WorkerError.unknown_instance =
    status_of GrpcCode.failed_precondition Message.unknown_instance
translate WorkerError.draining = status_of GrpcCode.unavailable Message.draining
translate (WorkerError.session e) = translate_session e
translate (WorkerError.lease e) = upstream (text_of_lease e)
translate (WorkerError.failed t) = upstream t

-- What the caller believes: the instance, if its text is a UUID, and the generation.
pub record Fence : Type 0 where
  pub instance_id : Option ℕ
  pub generation : ℕ

abbrev after_check : ℕ → Result LeaseError (Unit {0}) → Result RpcStatus ℕ
after_check id (ok u) = ok id
after_check id (err LeaseError.wrong_generation) =
    err (status_of GrpcCode.failed_precondition Message.wrong_generation)
after_check id (err LeaseError.not_acquired) =
    err (status_of GrpcCode.failed_precondition Message.wrong_generation)
after_check id (err (LeaseError.failed t)) =
    err (status_of GrpcCode.internal (Message.text "fencing check failed"))

module _ {S : Type 0} (c : Config) (down : Bool) where
  abbrev parsed : Option ℕ → ℕ → World S → Result RpcStatus ℕ
  parsed none generation w =
      err (status_of GrpcCode.invalid_argument (Message.text "instance_id is not a valid UUID"))
  parsed (some id) generation w =
      if w.draining
      then err (status_of GrpcCode.unavailable Message.draining)
      else after_check id (check_generation c.manager down id generation w.leases)

  -- The test that precedes every command; a missing fence is refused first.
  unfoldable pub fence : Option Fence → World S → Result RpcStatus ℕ
  fence none w = err (status_of GrpcCode.invalid_argument (Message.text "fence is required"))
  fence (some f) w = parsed f.instance_id f.generation w

  abbrev answered :
      {A B : Type 0} → (A → B) → Result WorkerError A × World S → Result RpcStatus B × World S
  answered respond (err e, w) = (err (translate e), w)
  answered respond (ok a, w) = (ok (respond a), w)

  abbrev admitted :
      {A B : Type 0}
      → (ℕ → World S → Result WorkerError A × World S)
      → (A → B)
      → Result RpcStatus ℕ
      → World S
      → Result RpcStatus B × World S
  admitted command respond (err e) w = (err e, w)
  admitted command respond (ok id) w = answered respond (command id w)

  -- The shape of every method: the fence, the supervisor's operation, its answer or its error.
  unfoldable pub serve :
      {A B : Type 0}
      → (ℕ → World S → Result WorkerError A × World S)
      → (A → B)
      → Option Fence
      → World S
      → Result RpcStatus B × World S
  serve command respond f w = admitted command respond (fence f w) w
