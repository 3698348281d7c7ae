-- ===== src/Tests/Adapter.antt =====
-- The laws of the adapter at concrete events, and two runs of a pairing attempt.
use zappermeow.Base.{Bool, true, false, [], ◌∷◌, none, some, ok, err, ◌≡◌, refl, arith}
use zappermeow.Domain.Instance.{InstanceState}
use zappermeow.Domain.Reason.{DisconnectReason}
use zappermeow.Wa.Adapter.{
  Adapter, QrItem, handle_event, reconnect_hook, loss_of, pump_item, translate_item,
  send_passkey_response, confirm_passkey, none_pending, awaiting_confirm, awaiting_response,
}
use zappermeow.Wa.Adapter.Laws.{handle_event-verdict, confirm_passkey-once, pump_all}
use zappermeow.Wa.Classify.{LibraryEvent, verdict, classify_disconnect}
use zappermeow.Wa.Session.{Event, no_passkey_code, by_qr, pair_error}
use zappermeow.Worker.Losses.{state_of_loss}

abbrev quiet : Adapter
quiet = record {
  closed = false;
  permanent = false;
  passkey_phase = none_pending;
  device = none;
  queue = [];
}

abbrev undeclared : LibraryEvent → Bool
undeclared e = false

handle_event-verdict_example :
    let c = verdict InstanceState.logged_out DisconnectReason.logged_out_from_phone true in
    let b = handle_event undeclared 50 LibraryEvent.logged_out quiet in
    (b.queue ≡ Event.disconnected (loss_of c) ∷ [])
    × (state_of_loss (loss_of c) ≡ InstanceState.logged_out)
    × (reconnect_hook b ≡ false)
unfolding classify_disconnect
handle_event-verdict_example =
    handle_event-verdict undeclared 50 LibraryEvent.logged_out
      (verdict InstanceState.logged_out DisconnectReason.logged_out_from_phone true) quiet refl refl
      refl (omega arith) tt

abbrev coded : Adapter
coded = record quiet { passkey_phase = awaiting_confirm }

confirm_passkey-once_example :
    let b = (pump_all ((60, QrItem.success) ∷ []) ((confirm_passkey (ok tt) coded).1, [])).0 in
    confirm_passkey (ok tt) b ≡ (err no_passkey_code, b)
unfolding confirm_passkey
confirm_passkey-once_example =
    confirm_passkey-once (ok tt) (ok tt) ((60, QrItem.success) ∷ []) coded [] refl ((λ c e. cc), tt)

-- An assertion that WhatsApp rejects after it was sent is reported as a pairing error.
rejected_assertion :
    let answered =
      (send_passkey_response true (ok tt) (record quiet { passkey_phase = awaiting_response })).1 in
    (pump_item 60 QrItem.error (answered, [])).1 ≡ Event.pairing_failed by_qr pair_error ∷ []
unfolding send_passkey_response pump_item translate_item
rejected_assertion = refl

-- The phase of an attempt that timed out marks the next attempt's failure as one of the passkey step.
stale_phase :
    (pump_all
      ((60, QrItem.passkey_request (some "{}")) ∷ (70, QrItem.timeout) ∷ (90, QrItem.error) ∷ [])
      (quiet, [])).0.passkey_phase
    ≡ awaiting_response
unfolding pump_all pump_item translate_item
stale_phase = refl
