-- ===== src/Rpc/Translation.antt =====
-- What a tenant is told when a worker's command fails, through the mappings of
-- internal/worker/grpcserver.go and internal/domain/services/connection.go.
use zappermeow.Base.{true, ◌≡◌, ◌≢◌, ◌↔◌, ◌⊎◌, arith}
use zappermeow.Domain.Errors.{Code}
use zappermeow.Domain.Instance.{InstanceState, is_valid}
use zappermeow.Rpc.Server.{translate, state_to_proto, state_from_proto}
use zappermeow.Rpc.Client.{rpc, should_retry, translate_session_error, service_state}
use zappermeow.Worker.State.{WorkerError}

-- The code that the tenant gets.
abbrev pub told : WorkerError → Code
told e = (translate_session_error (rpc (translate e))).code

-- No failure of a worker's command reaches the tenant as an internal error, and the client tries a
-- command again exactly when the tenant would otherwise be told that WhatsApp or the session's worker
-- is unavailable.
pub told-should_retry :
    (e : WorkerError)
    → (told e ≢ Code.internal)
      × ((should_retry (translate e) ≡ true)
          ↔ ((told e ≡ Code.whatsapp_unavailable) ⊎ (told e ≡ Code.session_unavailable)))
unfolding translate translate_session_error
told-should_retry WorkerError.unknown_instance = ground arith
told-should_retry WorkerError.draining = ground arith
told-should_retry (WorkerError.lease e) = ground arith
told-should_retry (WorkerError.session e) = ground arith
told-should_retry (WorkerError.failed t) = ground arith

-- A state of an instance survives the wire on both of the API's ways of reading it.
state-roundtrip :
    (s : InstanceState)
    → is_valid s ≡ true
    → (state_from_proto (state_to_proto s) ≡ s) × (service_state (state_to_proto s) ≡ s)
unfolding state_to_proto state_from_proto service_state is_valid
state-roundtrip s v = ground arith
