-- ===== src/Worker/Runtime.antt =====
-- internal/worker/reconcile.go: the periodic work of a worker and the control messages; and the steps
-- a worker takes, one at a time, with the statements that others run on the lease table in between.
use zappermeow.Base.{
  ℕ, Bool, List, [], ◌∷◌, map, Option, none, some, String, Result, ok, err, elem, if◌then◌else◌,
}
use zappermeow.Domain.Reason.{DisconnectReason}
use zappermeow.Lease.{Manager, LeaseError, heartbeat, adoptable}
use zappermeow.Lease.Trace.{step}
use zappermeow.Wa.Session.{SessionApi, Event}
use zappermeow.Worker.State.{Call, Config, Managed, World, lookup, heartbeats, lists}
use zappermeow.Worker.Sessions.{
  has_capacity, capacity, held, owns, adopt, dial, drop, shutdown, stop_on_request,
}
use zappermeow.Worker.Commands.{connect, pair_phone, disconnect, logout}
use zappermeow.Worker.Settings.{apply_settings, submit_passkey_response, confirm_passkey}
use zappermeow.Worker.Handler.{handle}

module _ {S : Type 0} (api : SessionApi S) (c : Config) (down : Call → Bool) (now : ℕ) where
  -- The sessions that were not renewed.
  abbrev pub drop_lost : List ℕ → List ℕ → World S → World S
  drop_lost renewed [] w = w
  drop_lost renewed (id ∷ ids) w =
      let rest = drop_lost renewed ids in
      if elem id renewed then rest w else rest (drop api c down now id w)

  abbrev pub after_renewal : Result LeaseError (List (ℕ × ℕ)) → World S → World S
  after_renewal (err e) w = w
  after_renewal (ok renewed) w = drop_lost (map (λ (p : ℕ × ℕ). p.0) renewed) (held w) w

  unfoldable pub heartbeat_once : World S → World S
  heartbeat_once w =
      let (renewed, after) = heartbeat c.manager (down heartbeats) now w.leases in
      after_renewal renewed (record w { leases = after })

  unfoldable pub claim : ℕ → World S → World S
  claim id w = if has_capacity c w then (adopt api c down now id w).1 else w

  abbrev pub adopt_each : List ℕ → World S → World S
  adopt_each [] w = w
  adopt_each (id ∷ ids) w =
      let next = adopt_each ids (adopt api c down now id w).1 in
      if has_capacity c w then next else w

  abbrev pub adopt_listed : Result LeaseError (List ℕ) → World S → World S
  adopt_listed (err e) w = w
  adopt_listed (ok ids) w = adopt_each ids w

  unfoldable pub reconcile_once : World S → World S
  reconcile_once w =
      if has_capacity c w
      then adopt_listed (adoptable c.manager (down lists) now (capacity c w) w.instances w.leases) w
      else w

  -- A message of the stop channel.
  unfoldable pub stop_requested : ℕ → World S → World S
  stop_requested id w =
      if owns id w then stop_on_request api c down now id DisconnectReason.tenant_suspended w else w

-- What happens to a worker. `others` is a statement of another worker or of the API.
pub data Action : Type 0 where
  adopts connects disconnects confirms : ℕ → Action
  pairs_phone : ℕ → String → Bool → Action
  logs_out : ℕ → Bool → Action
  applies : ℕ → Bool → Bool → Action
  submits : ℕ → String → Action
  receives : ℕ → Event → Action
  dials_serial : ℕ → Action
  renews reconciles shuts_down : Action
  claims stops : ℕ → Action
  others : zappermeow.Lease.Trace.Call → Action

abbrev pub handled :
    {S : Type 0} → (Managed S → World S → World S) → Option (Managed S) → World S → World S
handled f none w = w
handled f (some m) w = f m w

module _ {S : Type 0} (api : SessionApi S) (c : Config) where
  unfoldable pub act : (Call → Bool) → ℕ → Action → World S → World S
  act down now (adopts id) w = (adopt api c down now id w).1
  act down now (connects id) w = (connect api c down now id w).1
  act down now (disconnects id) w = (disconnect api c down now id w).1
  act down now (confirms id) w = (confirm_passkey api c down now id w).1
  act down now (pairs_phone id phone replace) w = (pair_phone api c down now id phone replace w).1
  act down now (logs_out id allow) w = (logout api c down now id allow w).1
  act down now (applies id proxy passive) w = (apply_settings api c down now id proxy passive w).1
  act down now (submits id json) w = (submit_passkey_response api c down now id json w).1
  act down now (receives id e) w = handled (λ m. handle api c down now m e) (lookup id w) w
  act down now (dials_serial n) w = dial api c down now n w
  act down now renews w = heartbeat_once api c down now w
  act down now reconciles w = reconcile_once api c down now w
  act down now shuts_down w = (shutdown api c down now w).1
  act down now (claims id) w = claim api c down now id w
  act down now (stops id) w = stop_requested api c down now id w
  act down now (others call) w = record w { leases = step c.manager.expiry now call w.leases }

  -- Each action with the calls that fail during it and its instant.
  unfoldable pub run : List ((Call → Bool) × ℕ × Action) → World S → World S
  run [] w = w
  run ((down, now, a) ∷ more) w = run more (act down now a w)
