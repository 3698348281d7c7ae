-- ===== src/Tests/Rpc.antt =====
-- The laws of the gRPC boundary and of the problem documents at concrete inputs.
use zappermeow.Base.{
  none, ℕ, ◌+◌, true, false, String, Option, some, Result, ok, err, ◌≡◌, ◌≢◌, ◌↔◌, ◌⊎◌, refl, arith,
  ap, same_text, ◌==◌, if◌then◌else◌,
}
use zappermeow.Domain.Errors.{Code}
use zappermeow.Lease.{Owner, LeaseError}
use zappermeow.Rpc.{GrpcCode, Message, RpcStatus, status_of}
use zappermeow.Rpc.Client.{
  CachedOwner, ClientError, owner_read, call, should_retry, service_state, rpc,
}
use zappermeow.Rpc.Fencing.{Admits, serve-fenced, call-outdated}
use zappermeow.Rpc.Server.{Fence, fence, serve, translate, state_to_proto}
use zappermeow.Rpc.Translation.{told, told-should_retry}
use zappermeow.Api.Problems.{ErrorDetail, redact}
use zappermeow.Api.Leaks.{redact-safe, IsHarmless}
use zappermeow.Wa.Session.{SessionError}
use zappermeow.Worker.Commands.{disconnect}
use zappermeow.Worker.State.{WorkerError}
use zappermeow.Tests.Workers.{config, busy, script, up}

serve-fenced_example :
    let f : Option Fence = some (record { instance_id = some 7; generation = 4 }) in
    ((fence config false f busy ≡ ok 7) ↔ Admits config 7 4 busy)
    × ((s : RpcStatus)
        → fence config false f busy ≡ err s
        → serve config false (disconnect script config up 120) state_to_proto f busy
          ≡ (err s, busy))
serve-fenced_example = serve-fenced config 7 4 busy (disconnect script config up 120) state_to_proto

abbrev stale : CachedOwner
stale = record { addr = 91; generation = 4 }

abbrev fresh : CachedOwner
fresh = record { addr = 92; generation = 5 }

-- A fleet that counts the commands it ran; only the new owner accepts.
abbrev lease_row : ℕ → Result LeaseError Owner
lease_row w = ok (record { grpc_addr = 92; generation = 5; live = true })

abbrev fleet : CachedOwner → ℕ → Result RpcStatus ℕ × ℕ
fleet o w =
    if o.generation == 5
    then (ok 1, w + 1)
    else (err (status_of GrpcCode.failed_precondition Message.wrong_generation), w)

-- Only the new owner is asked, and it does not refuse.
fleet_final :
    (o : CachedOwner) (t : RpcStatus) (v : ℕ)
    → owner_read (lease_row 0) ≡ ok o
    → fleet o 0 ≡ (err t, v)
    → should_retry t ≡ false
fleet_final o t v named refused = absurd (
    ground (
      arith,
      refused,
      ap (λ (r : Result ClientError CachedOwner). elim r [ ok x ↦ x.generation | err e ↦ 0 ]) named,
    ))

call-outdated_example : call lease_row fleet (some stale) 0 ≡ call lease_row fleet none 0
call-outdated_example =
    call-outdated lease_row fleet stale 0
      (status_of GrpcCode.failed_precondition Message.wrong_generation) (ground arith) refl refl
      fleet_final

told-should_retry_example :
    (told (WorkerError.session SessionError.proxy_connect_failed) ≢ Code.internal)
    × ((should_retry (translate (WorkerError.session SessionError.proxy_connect_failed)) ≡ true) ↔ (
        (told (WorkerError.session SessionError.proxy_connect_failed) ≡ Code.whatsapp_unavailable)
        ⊎ (told (WorkerError.session SessionError.proxy_connect_failed)
            ≡ Code.session_unavailable)))
told-should_retry_example =
    told-should_retry (WorkerError.session SessionError.proxy_connect_failed)

-- A malformed passkey answer reaches the tenant as an invalid contact.
told_passkey :
    told (WorkerError.session SessionError.invalid_passkey_response) ≡ Code.invalid_contact
unfolding translate zappermeow.Rpc.Client.translate_session_error
told_passkey = refl

abbrev identity_text : String → String
identity_text t = t

redact-safe_example :
    let d : ErrorDetail = record {
      message = "too short";
      location = "password";
      value = some "hunter2";
    } in
    ((redact same_text identity_text d).value ≡ some "hunter2") ↔ (
      (d.value ≡ some "hunter2")
      × IsHarmless same_text identity_text d.location
      × IsHarmless same_text identity_text "hunter2")
redact-safe_example =
    redact-safe same_text identity_text
      (record { message = "too short"; location = "password"; value = some "hunter2" }) "hunter2"
