-- ===== src/Worker/Preserve.antt =====
-- Every command and every handler of internal/worker keeps the sessions' generations and the bound on
-- their number, and none of them acquires a lease.
use zappermeow.Base.{ℕ, Bool, false, refl, [], ◌∷◌, Option, none, some, String, Result, ok, err}
use zappermeow.Domain.Instance.{InstanceState}
use zappermeow.Domain.Reason.{to_string}
use zappermeow.Domain.Trail.{ConnectionEventType, text, flag}
use zappermeow.Events.{FrameType}
use zappermeow.Wa.Session.{SessionApi, SessionError, PairingExpiry}
use zappermeow.Worker.State.{
  clears_identity, Call, WorkerError, Config, Managed, World, lookup, is_pairing, set_pairing_until,
  cancel_pairing, with_session, set_state, record_loss, append, emit, drop_snapshot,
}
use zappermeow.Worker.Sessions.{stop, hand_back, publish_pairing_ended}
use zappermeow.Worker.Commands.{
  logout_reason, identity_cleared, is_paired, Outcome, pairing_opened, pairing_dialled, qr_opened,
  start_pairing, connected_by, pairing_by, connect_session, connect, phone_opened, phone_answered,
  pair_phone_session, pair_phone, disconnect_recorded, disconnect, logged_out_by, logout_session,
  logout,
}
use zappermeow.Worker.Keeps.{
  Keeps, Keeps-refl, Change-trans, amend-Keeps, stop-Keeps, hand_back-Keeps, option-Keeps, if-Keeps,
}

module _ {S : Type 0} (api : SessionApi S) (c : Config) (down : Call → Bool) (now : ℕ)
    {owner : ℕ} where
  pub session-Keeps : (s : S) (id : ℕ) (w : World S) → Keeps owner w (with_session s id w)
  session-Keeps s id w = amend-Keeps id (λ m. record m { session = s }) w (λ m. refl) (λ m. refl)

  pub pairing-Keeps :
      (p : Option ℕ) (id : ℕ) (w : World S) → Keeps owner w (set_pairing_until p id w)
  pairing-Keeps p id w = amend-Keeps id (λ m. record m { pairing = p }) w (λ m. refl) (λ m. refl)

  opened-Keeps :
      (id t : ℕ) (v : World S) (r : Result WorkerError (Unit {0}) × World S)
      → Keeps owner r.1 (pairing_opened api c down now id t v r).1
  unfolding append
  opened-Keeps id t v (err e, w) = Keeps-refl w
  opened-Keeps id t v (ok u, w) = Keeps-refl w

  dialled-Keeps :
      (id t : ℕ) (r : Result SessionError (Unit {0}) × S) (w : World S)
      → Keeps owner w (pairing_dialled api c down now id t r w).1
  unfolding set_state append
  dialled-Keeps id t (err e, s) w =
      Change-trans (session-Keeps s id w) (pairing-Keeps none id (with_session s id w))
  dialled-Keeps id t (ok u, s) w = Change-trans (session-Keeps s id w) (
      opened-Keeps id t (with_session s id w)
        (set_state down now id InstanceState.pairing (with_session s id w)))

  qr-Keeps :
      (id : ℕ) (r : Result SessionError (Unit {0}) × S) (w : World S)
      → Keeps owner w (qr_opened api c down now id r w).1
  qr-Keeps id (err e, s) w = session-Keeps s id w
  qr-Keeps id (ok u, s) w =
      Change-trans (pairing-Keeps _ id w) (dialled-Keeps id _ (api.connect s) _)

  pub connect-Keeps : (id : ℕ) (w : World S) → Keeps owner w (connect api c down now id w).1
  unfolding connect start_pairing
  connect-Keeps id w =
      option-Keeps w (lookup id w) (err WorkerError.unknown_instance, w)
        (λ m. connect_session api c down now m w) (Keeps-refl w) (λ m e. by_status m)
    where
      by_connected :
          (i : ℕ) (r : Result SessionError (Unit {0}) × S)
          → Keeps owner w (connected_by api c down now i r w).1
      by_connected i (err e, s) = session-Keeps s i w
      by_connected i (ok u, s) = session-Keeps s i w

      by_pairing : (r : Outcome S ℕ) → Keeps owner r.1 (pairing_by api c down now r).1
      by_pairing (err e, v) = Keeps-refl v
      by_pairing (ok t, v) = Keeps-refl v

      by_status : (m : Managed S) → Keeps owner w (connect_session api c down now m w).1
      by_status m = if-Keeps w (api.status m.session).connected _ _ (Keeps-refl w) (
          if-Keeps w (is_paired (api.status m.session)) _ _
            (by_connected m.instance_id (api.connect m.session))
            (Change-trans (qr-Keeps m.instance_id (api.qr_channel m.session) w)
              (by_pairing (start_pairing api c down now m w))))

  pub ended-Keeps :
      (m : Managed S) (reason : PairingExpiry) (w : World S)
      → Keeps owner w (publish_pairing_ended api c down now m reason w)
  unfolding publish_pairing_ended emit append drop_snapshot
  ended-Keeps m reason w = Keeps-refl w

  phone_opened-Keeps :
      (id : ℕ) (a : String × ℕ) (r : Result WorkerError (Unit {0}) × World S)
      → Keeps owner r.1 (phone_opened api c down now id a r).1
  unfolding append
  phone_opened-Keeps id a (err e, v) = Keeps-refl v
  phone_opened-Keeps id a (ok u, v) = Keeps-refl v

  phone_answered-Keeps :
      (id : ℕ) (r : Result SessionError (String × ℕ) × S) (w : World S)
      → Keeps owner w (phone_answered api c down now id r w).1
  unfolding set_state
  phone_answered-Keeps id (err e, s) w = session-Keeps s id w
  phone_answered-Keeps id (ok a, s) w = Change-trans (session-Keeps s id w) (
      Change-trans (pairing-Keeps (some a.1) id (with_session s id w)) (
        phone_opened-Keeps id a (
          set_state down now id InstanceState.pairing
            (set_pairing_until (some a.1) id (with_session s id w)))))

  pub pair_phone-Keeps :
      (id : ℕ) (phone : String) (replace : Bool) (w : World S)
      → Keeps owner w (pair_phone api c down now id phone replace w).1
  unfolding pair_phone
  pair_phone-Keeps id phone replace w =
      option-Keeps w (lookup id w) (err WorkerError.unknown_instance, w)
        (λ m. pair_phone_session api c down now phone replace m w) (Keeps-refl w)
        (λ m e.
          if-Keeps w (is_pairing now m) _ _
            (if-Keeps w replace _ _
              (Change-trans (pairing-Keeps none m.instance_id w) (
                Change-trans (ended-Keeps m _ (cancel_pairing m.instance_id w))
                  (phone_answered-Keeps m.instance_id _ _)))
              (Keeps-refl w))
            (phone_answered-Keeps m.instance_id _ w))

  -- The session ends and its lease goes back.
  pub closed-Keeps : (id : ℕ) (w : World S) → Keeps owner w (hand_back c down now id (stop id w))
  closed-Keeps id w = Change-trans (stop-Keeps id w) (hand_back-Keeps c down now id (stop id w))

  pub disconnect-Keeps : (id : ℕ) (w : World S) → Keeps owner w (disconnect api c down now id w).1
  unfolding disconnect record_loss emit
  disconnect-Keeps id w =
      option-Keeps w (lookup id w) (ok InstanceState.disconnected, w) _ (Keeps-refl w)
        (λ m e. Change-trans (pairing-Keeps none id w) (
          Change-trans (session-Keeps (api.disconnect m.session) id (cancel_pairing id w))
            (recorded m _)))
    where
      recorded :
          (m : Managed S) (r : Result WorkerError (Unit {0}) × World S)
          → Keeps owner r.1 (disconnect_recorded api c down now m r).1
      recorded m (err e, v) = Keeps-refl v
      recorded m (ok u, v) = closed-Keeps m.instance_id (emit down now m _ _ v)

  pub logout-Keeps :
      (id : ℕ) (allow : Bool) (w : World S) → Keeps owner w (logout api c down now id allow w).1
  unfolding logout emit append
  logout-Keeps id allow w =
      option-Keeps w (lookup id w) (err WorkerError.unknown_instance, w)
        (λ m. logout_session api c down now allow m w) (Keeps-refl w)
        (λ m e. Change-trans (pairing-Keeps none m.instance_id w) (by_answer m _ _))
    where
      by_answer :
          (m : Managed S) (r : Result SessionError Bool × S) (v : World S)
          → Keeps owner v (logged_out_by api c down now m r v).1
      by_answer m (err e, s) v = session-Keeps s m.instance_id v
      by_answer m (ok removed, s) v = Change-trans (session-Keeps s m.instance_id v) (
          if-Keeps (with_session s m.instance_id v) (down clears_identity) _ _
            (Keeps-refl (with_session s m.instance_id v))
            (closed-Keeps m.instance_id (
              emit down now m FrameType.logged_out
                (("reason", text (to_string (logout_reason api c down now removed)))
                  ∷ ("from_phone", flag false)
                  ∷ [])
                (append down now m.instance_id ConnectionEventType.logged_out
                  (logout_reason api c down now removed) []
                  (identity_cleared api c down now m.instance_id
                    (with_session s m.instance_id v))))))
