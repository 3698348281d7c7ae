-- ===== src/Service/Front.antt =====
-- internal/domain/services/connection.go: what the commands of a session act on, and the loop that
-- waits for an owner. `Sessions` is what the session client offers, on the tables and the workers `W` as
-- they are; its laws are in Rpc.
use zappermeow.Base.{
  ℕ, zero, suc, ◌+◌, ◌/◌, Bool, false, ltb, String, List, Option, none, some, Result, ok, err,
  if◌then◌else◌,
}
use zappermeow.Domain.Errors.{Error, err_internal, err_session_unavailable}
use zappermeow.Domain.Instance.{ConnectionIntent, InstanceState}
use zappermeow.Events.{Redis}
use zappermeow.Domain.Trail.{ConnectionEvent}
use zappermeow.Events
use zappermeow.Rpc.Client.{ClientError, no_owner, translate_session_error}
use zappermeow.Rpc.Server.{SessionState}
use zappermeow.Service.{Call, Plane}
use zappermeow.Store.Instances.{Instances}

-- The tables, the trail and the workers.
pub record Front (W : Type 0) : Type 0 where
  pub plane : Plane
  pub trail : List ConnectionEvent
  pub workers : W

pub record ConnectResponse : Type 0 where
  pub state : SessionState
  pub pairing_started : Bool
  pub pairing_expires_at : Option ℕ

pub record PairPhoneResponse : Type 0 where
  pub pairing_code : String
  pub expires_at : ℕ

pub record ApplyResponse : Type 0 where
  pub reconnecting : Bool
  pub passive_applied : Bool

pub record Codes : Type 0 where
  pub lid : String
  pub phone_number : String
  pub username : String
  pub numeric_code : String
  pub display_qr : List ℕ
  pub verification_qr : List ℕ

-- A command at an instant.
abbrev pub Command : Type 0 → Type 0 → Type 0
Command W A = ℕ → Front W → Result ClientError A × Front W

-- The commands of the client, by the instance.
pub record Sessions (W : Type 0) : Type 0 where
  pub connect : ℕ → Command W ConnectResponse
  pub disconnect : ℕ → Command W (Unit {0})
  pub pair_phone : ℕ → String → Bool → Command W PairPhoneResponse
  pub logout : ℕ → Bool → Command W Bool
  pub apply_settings : ℕ → Bool → Bool → Command W ApplyResponse
  pub submit_passkey_response : ℕ → String → Command W (Unit {0})
  pub confirm_passkey : ℕ → Command W (Unit {0})
  pub identity_verification_codes : ℕ → String → Command W Codes

pub record ConnectResult : Type 0 where
  pub state : InstanceState
  pub intent : ConnectionIntent
  pub pairing_started : Bool
  pub pairing_expires : Option ℕ

pub record LogoutResult : Type 0 where
  pub state : InstanceState
  pub remote_removed : Bool

pub record SettingsResult : Type 0 where
  pub proxy_url : String
  pub reconnecting : Bool
  pub passive_mode : Bool
  pub passive_applied : Bool

-- 100 milliseconds, in nanoseconds.
abbrev pub pause : ℕ
pause = 100000000

-- What comes of a command that waits; `none` is running out of fuel.
abbrev pub Waited : Type 0 → Type 0 → Type 0
Waited W A = Option (Result Error A × Front W)

abbrev pub with_plane : {W : Type 0} → Front W → Plane → Front W
with_plane w p = record w { plane = p }

abbrev pub with_redis : Redis → Plane → Plane
with_redis r p = record p { redis = r }

abbrev pub with_instances : Instances → Plane → Plane
with_instances is p = record p { instances = is }

module _ {W A : Type 0} (command : Command W A) (wait : ℕ → Front W → Option (ℕ × Front W)) where
  -- The wait ends by the cancelled context or, by then, at a later instant; then the next round.
  abbrev waited : (ℕ → Front W → Waited W A) → Front W → Option (ℕ × Front W) → Waited W A
  waited next w none = some (err err_session_unavailable, w)
  waited next w (some (now, w')) = next now w'

  abbrev pub round :
      (ℕ → Front W → Waited W A) → ℕ → ℕ → Result ClientError A × Front W → Waited W A
  round next deadline now (ok a, w) = some (ok a, w)
  round next deadline now (err no_owner, w) =
      let again = waited next w (wait now w) in
      if ltb deadline now then some (err err_session_unavailable, w) else again
  round next deadline now (err (ClientError.failed t), w) =
      some (err (translate_session_error (ClientError.failed t)), w)
  round next deadline now (err (ClientError.rpc s), w) =
      some (err (translate_session_error (ClientError.rpc s)), w)

  -- On fuel: `none` is running out of it.
  unfoldable pub retry : ℕ → ℕ → ℕ → Front W → Waited W A
  retry zero deadline now w = none
  retry (suc fuel) deadline now w = round (retry fuel deadline) deadline now (command now w)

  abbrev pub woken : ℕ → Front W → Front W
  woken id w = with_plane w (with_redis (Events.claim false id w.plane.redis) w.plane)

  -- claimAndRetryConnect and claimAndRetryPairPhone: the same loop around their commands. A round lasts
  -- at least the pause.
  unfoldable pub claim_and_retry : (Call → Bool) → ℕ → ℕ → ℕ → Front W → Waited W A
  claim_and_retry down claim_wait id now w =
      if down (Call.claims id)
      then some (err (err_internal "claim"), w)
      else retry (suc (suc (claim_wait / pause))) (now + claim_wait) now (woken id w)
