-- ===== src/Worker/Periodic.antt =====
-- The periodic work of internal/worker and the drain keep the sessions' generations and the bound on
-- their number, and none of them but an adoption acquires a lease.
use zappermeow.Base.{
  ℕ, Bool, true, not, refl, inl, inr, List, [], ◌∷◌, Option, none, some, Result, ok, err,
  Bool-cases, select, elem, ◌==◌,
}
use zappermeow.Domain.Reason.{DisconnectReason}
use zappermeow.Lease.{LeaseError, release_all, heartbeat}
use zappermeow.Lease.Trace.{step, releases_all, heartbeats}
use zappermeow.Lease.Ownership.{Advances, Advances-refl, step-Advances}
use zappermeow.Wa.Session.{SessionApi, worker_shutdown}
use zappermeow.Worker.State.{
  Call, Config, Managed, World, lookup, is_pairing, cancel_pairing, set_state, record_loss, append,
  emit, drop_snapshot,
}
use zappermeow.Worker.Sessions.{
  held, owns, reconnect, with_serial, dial, drop, publish_pairing_ended, stop_each, shutdown,
  requested, stopped_by, stop_on_request,
}
use zappermeow.Worker.Runtime.{drop_lost, after_renewal, heartbeat_once, stop_requested}
use zappermeow.Worker.Keeps.{Trims-refl, Keeps, Keeps-refl, Change-trans, stop-Keeps, leases-Keeps}
use zappermeow.Worker.Preserve.{session-Keeps, pairing-Keeps, ended-Keeps, closed-Keeps}
use zappermeow.Worker.Handled.{if_world-Keeps}

module _ {S : Type 0} (api : SessionApi S) (c : Config) (down : Call → Bool) (now : ℕ) where
  abbrev me : ℕ
  me = c.manager.worker_id

  drop-Keeps : (id : ℕ) (w : World S) → Keeps me w (drop api c down now id w)
  unfolding drop append
  drop-Keeps id w = stop-Keeps id w

  drop_lost-Keeps :
      (renewed ids : List ℕ) (w : World S) → Keeps me w (drop_lost api c down now renewed ids w)
  drop_lost-Keeps renewed [] w = Keeps-refl w
  drop_lost-Keeps renewed (id ∷ ids) w =
      if_world-Keeps api c down now w (elem id renewed) _ _ (drop_lost-Keeps renewed ids w)
        (Change-trans (drop-Keeps id w) (drop_lost-Keeps renewed ids (drop api c down now id w)))

  pub heartbeat-Keeps : (w : World S) → Keeps me w (heartbeat_once api c down now w)
  unfolding heartbeat_once heartbeat step
  heartbeat-Keeps w =
      Change-trans
        (leases-Keeps (heartbeat c.manager (down Call.heartbeats) now w.leases).1 w by_failure)
        (by_answer (heartbeat c.manager (down Call.heartbeats) now w.leases).0 _)
    where
      by_failure : Advances me w.leases (heartbeat c.manager (down Call.heartbeats) now w.leases).1
      by_failure = elim (Bool-cases (down Call.heartbeats)) [
        | inl failing ↦ rw failing (Advances-refl me w.leases)
        | inr working ↦
            rw working (step-Advances c.manager.expiry now me (heartbeats me) w.leases tt)
      ]

      by_answer :
          (r : Result LeaseError (List (ℕ × ℕ))) (v : World S)
          → Keeps me v (after_renewal api c down now r v)
      by_answer (err e) v = Keeps-refl v
      by_answer (ok renewed) v = drop_lost-Keeps _ (held v) v

  pub stop_each-Keeps :
      (ms : List (Managed S)) (w : World S) → Keeps me w (stop_each api c down now ms w)
  unfolding publish_pairing_ended emit append drop_snapshot
  stop_each-Keeps [] w = Keeps-refl w
  stop_each-Keeps (m ∷ ms) w =
      Change-trans
        (if_world-Keeps api c down now w (is_pairing now m) _ w
          (ended-Keeps api c down now m worker_shutdown w) (Keeps-refl w))
        (Change-trans (stop-Keeps m.instance_id _) (stop_each-Keeps ms _))

  pub shutdown-Keeps : (w : World S) → Keeps me w (shutdown api c down now w).1
  unfolding shutdown release_all step
  shutdown-Keeps w = Change-trans draining-Keeps (
      Change-trans (stop_each-Keeps w.sessions _) (
        leases-Keeps (release_all c.manager (down Call.releases_all) now drained.leases).1 drained
          by_failure))
    where
      drained : World S
      drained = stop_each api c down now w.sessions (record w { draining = true })

      draining-Keeps : Keeps me w (record w { draining = true })
      draining-Keeps = record {
        sessions = Trims-refl w.sessions;
        leases = Advances-refl me w.leases;
        drained = λ d. refl;
      }

      by_failure :
          Advances me drained.leases
            (release_all c.manager (down Call.releases_all) now drained.leases).1
      by_failure = elim (Bool-cases (down Call.releases_all)) [
        | inl failing ↦ rw failing (Advances-refl me drained.leases)
        | inr working ↦
            rw working (step-Advances c.manager.expiry now me (releases_all me) drained.leases tt)
      ]

  stop_on_request-Keeps :
      (id : ℕ) (reason : DisconnectReason) (w : World S)
      → Keeps me w (stop_on_request api c down now id reason w)
  unfolding stop_on_request emit append record_loss
  stop_on_request-Keeps id reason w = by_lookup (lookup id w)
    where
      by_lookup : (o : Option (Managed S)) → Keeps me w (stopped_by api c down now id reason o w)
      by_lookup none = Keeps-refl w
      by_lookup (some m) = Change-trans (pairing-Keeps api c down now none id w) (
          Change-trans
            (session-Keeps api c down now (api.disconnect m.session) id (cancel_pairing id w))
            (closed-Keeps api c down now id (requested api c down now id reason m w)))

  pub stop_requested-Keeps :
      (id : ℕ) (w : World S) → Keeps me w (stop_requested api c down now id w)
  unfolding stop_requested
  stop_requested-Keeps id w =
      if_world-Keeps api c down now w (owns id w) _ _
        (stop_on_request-Keeps id DisconnectReason.tenant_suspended w) (Keeps-refl w)

  pub dial-Keeps : (n : ℕ) (w : World S) → Keeps me w (dial api c down now n w)
  unfolding dial set_state
  dial-Keeps n w = by_serial (with_serial api c down now n w.sessions)
    where
      by_serial :
          (o : Option (Managed S))
          → Keeps me w
              (reconnect api c down now o (record w { dials = select (λ d. not (d == n)) w.dials }))
      by_serial none = Keeps-refl w
      by_serial (some m) = session-Keeps api c down now (api.connect m.session).1 m.instance_id w
