-- ===== src/Rpc.antt =====
-- The gRPC boundary between the API and a worker: the statuses it carries. `Server` is the worker's
-- side (internal/worker/grpcserver.go), `Client` the API's (internal/api/sessionclient/client.go) with
-- what internal/domain/services/connection.go makes of its errors.
pub mod Server
pub mod Client
pub mod Translation
pub mod Fencing
use zappermeow.Base.{Bool, true, false, String}

pub data GrpcCode : Type 0 where
  invalid_argument not_found aborted failed_precondition unavailable internal : GrpcCode
  other : GrpcCode

-- The message of a status: one of the details, the details of an upstream failure with the error's
-- text behind it, or another text that begins with none of them.
pub data Message : Type 0 where
  wrong_generation not_paired already_paired invalid_phone pairing_running draining : Message
  unknown_instance no_passkey_challenge no_passkey_code not_connected invalid_contact : Message
  identity_not_resolvable cannot_verify_self contact_unavailable : Message
  upstream_failure : String → Message
  text : String → Message

pub record RpcStatus : Type 0 where
  pub code : GrpcCode
  pub message : Message

abbrev pub status_of : GrpcCode → Message → RpcStatus
status_of code message = record { code = code; message = message }
