-- ===== src/Worker/Safety.antt =====
-- The actions of a worker that let sessions go or keep them (internal/worker), and what its fencing test
-- says of a session.
use zappermeow.Base.{ℕ, Bool, false, ◌≡◌, ◌↔◌, List, [], ◌∷◌, Option, some, none, ok, arith}
use zappermeow.Store.Leases.{LeaseRow, Leases, get_lease}
use zappermeow.Lease.{Manager, check_generation}
use zappermeow.Lease.Ownership.{IsForeign, step-Advances}
use zappermeow.Wa.Session.{SessionApi}
use zappermeow.Worker.State.{Call, Config, Managed, World, lookup}
use zappermeow.Worker.Runtime.{
  Action, adopts, connects, disconnects, confirms, pairs_phone, logs_out, applies, submits,
  receives, dials_serial, renews, reconciles, shuts_down, claims, stops, others, act, handled,
}
use zappermeow.Worker.Keeps.{Keeps, Keeps-refl, leases-Keeps}
use zappermeow.Worker.Preserve.{connect-Keeps, pair_phone-Keeps, disconnect-Keeps, logout-Keeps}
use zappermeow.Worker.Relink.{apply_settings-Keeps, submit-Keeps, confirm-Keeps}
use zappermeow.Worker.Handled.{handle-Keeps}
use zappermeow.Worker.Periodic.{heartbeat-Keeps, shutdown-Keeps, stop_requested-Keeps, dial-Keeps}

-- The action is not an adoption.
abbrev IsQuiet : Config → Action → Type 0
IsQuiet c (adopts id) = ⊥
IsQuiet c reconciles = ⊥
IsQuiet c (claims id) = ⊥
IsQuiet c (others call) = IsForeign c.manager.worker_id call
IsQuiet c _ = Unit

-- No other process acquires leases in this worker's name.
abbrev pub IsOwn : Config → Action → Type 0
IsOwn c (others call) = IsForeign c.manager.worker_id call
IsOwn c _ = Unit

abbrev pub Run : Type 0
Run = List ((Call → Bool) × ℕ × Action)

abbrev pub AllOwn : Config → Run → Type 0
AllOwn c [] = Unit
AllOwn c ((down, now, a) ∷ more) = IsOwn c a × AllOwn c more

module _ {S : Type 0} (api : SessionApi S) (c : Config) where
  pub act-Keeps :
      (down : Call → Bool) (now : ℕ) (a : Action) (w : World S)
      → IsQuiet c a
      → Keeps c.manager.worker_id w (act api c down now a w)
  unfolding act
  act-Keeps down now (adopts id) w q = absurd q
  act-Keeps down now reconciles w q = absurd q
  act-Keeps down now (claims id) w q = absurd q
  act-Keeps down now (connects id) w q = connect-Keeps api c down now id w
  act-Keeps down now (disconnects id) w q = disconnect-Keeps api c down now id w
  act-Keeps down now (confirms id) w q = confirm-Keeps api c down now id w
  act-Keeps down now (pairs_phone id phone replace) w q =
      pair_phone-Keeps api c down now id phone replace w
  act-Keeps down now (logs_out id allow) w q = logout-Keeps api c down now id allow w
  act-Keeps down now (applies id proxy passive) w q =
      apply_settings-Keeps api c down now id proxy passive w
  act-Keeps down now (submits id json) w q = submit-Keeps api c down now id json w
  act-Keeps down now (receives id e) w q = by_lookup (lookup id w)
    where
      by_lookup :
          (o : Option (Managed S))
          → Keeps c.manager.worker_id w
              (handled (λ m. zappermeow.Worker.Handler.handle api c down now m e) o w)
      by_lookup none = Keeps-refl w
      by_lookup (some m) = handle-Keeps api c down now m e w
  act-Keeps down now (dials_serial n) w q = dial-Keeps api c down now n w
  act-Keeps down now renews w q = heartbeat-Keeps api c down now w
  act-Keeps down now shuts_down w q = shutdown-Keeps api c down now w
  act-Keeps down now (stops id) w q = stop_requested-Keeps api c down now id w
  act-Keeps down now (others call) w q =
      leases-Keeps _ w (step-Advances c.manager.expiry now c.manager.worker_id call w.leases q)

-- The row of the instance's lease names this worker.
abbrev pub Owned : ℕ → ℕ → Leases → Type 0
Owned me id t = (r : LeaseRow) × (get_lease id t ≡ some r) × (r.worker_id ≡ some me)

pub fence_iff :
    (m : Manager) (id g : ℕ) (t : Leases) (r : LeaseRow)
    → get_lease id t ≡ some r
    → (r.worker_id ≡ some m.worker_id → r.generation ≡ g)
    → (check_generation m false id g t ≡ ok tt) ↔ Owned m.worker_id id t
unfolding check_generation
fence_iff m id g t r e mine = (λ passes. (r, e, ground arith), λ (x, e', o). ground (arith, mine))
