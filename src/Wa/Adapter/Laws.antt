-- ===== src/Wa/Adapter/Laws.antt =====
-- What the adapter of internal/wa/hypermeow.go promises: when the library may reconnect, what the
-- worker makes of a verdict, and the order of the passkey step.
use zappermeow.Base.{
  ℕ, ◌<◌, Bool, false, not, ◌≡◌, ◌≢◌, refl, List, [], ◌∷◌, ◌++◌, Option, none, some, Result, ok,
  err, arith, length, String,
}
use zappermeow.Wa.Classify.{LibraryEvent, Classification, classify_disconnect}
use zappermeow.Wa.Session.{Event, SessionError, no_passkey_code}
use zappermeow.Wa.Adapter.{
  Adapter, PasskeyPhase, QrItem, handle_event, reconnect_hook, emit, loss_of, event_buffer,
  pump_item, translate_item, confirm_passkey, awaiting_confirm, confirm_in, awaiting_response,
  none_pending, none_pending, code, success, timeout, err_scanned_without_multidevice,
  err_client_outdated, err_unexpected_state, error, unknown, passkey_request, passkey_response,
}
use zappermeow.Worker.Losses.{state_of_loss}

-- The events that the adapter does not handle by a case of its own.
abbrev IsClassified : LibraryEvent → Type 0
IsClassified LibraryEvent.connected = ⊥
IsClassified LibraryEvent.pair_success = ⊥
IsClassified LibraryEvent.pair_error = ⊥
IsClassified LibraryEvent.scanned_without_multidevice = ⊥
IsClassified _ = Unit

-- A library event with a verdict that is not a request to reconnect, while the channel has room: the
-- adapter queues one event, from which the worker computes the state of the verdict, and afterwards
-- the library may reconnect by itself exactly when the verdict is not permanent.
pub handle_event-verdict :
    (declared : LibraryEvent → Bool) (now : ℕ) (e : LibraryEvent) (c : Classification) (a : Adapter)
    → classify_disconnect declared now e ≡ some c
    → c.manual_reconnect ≡ false
    → a.closed ≡ false
    → length a.queue < event_buffer
    → IsClassified e
    → let b = handle_event declared now e a in
      (b.queue ≡ a.queue ++ (Event.disconnected (loss_of c) ∷ []))
      × (state_of_loss (loss_of c) ≡ c.state)
      × (reconnect_hook b ≡ not c.permanent)
unfolding handle_event emit classify_disconnect reconnect_hook
handle_event-verdict declared now e c a v automatic running room own = ground arith

-- The loop over the items of a QR channel, each with the instant it arrives.
unfoldable pub pump_all : List (ℕ × QrItem) → Adapter × List Event → Adapter × List Event
pump_all [] s = s
pump_all ((now, item) ∷ more) s = pump_all more (pump_item now item s)

-- No item brings a handoff code.
abbrev NoCode : List (ℕ × QrItem) → Type 0
NoCode [] = Unit
NoCode ((now, item) ∷ more) = ((c : Option String) → item ≢ passkey_response c) × NoCode more

pump_item-phase :
    (now : ℕ) (item : QrItem) (a : Adapter) (out : List Event)
    → ((c : Option String) → item ≢ passkey_response c)
    → a.passkey_phase ≢ awaiting_confirm
    → (pump_item now item (a, out)).0.passkey_phase ≢ awaiting_confirm
unfolding pump_item translate_item
pump_item-phase now (code c t) a out n p = p
pump_item-phase now success a out n p = p
pump_item-phase now timeout a out n p = p
pump_item-phase now err_scanned_without_multidevice a out n p = p
pump_item-phase now err_client_outdated a out n p = p
pump_item-phase now err_unexpected_state a out n p = p
pump_item-phase now error a out n p = p
pump_item-phase now unknown a out n p = p
pump_item-phase now (passkey_request none) a out n p = p
pump_item-phase now (passkey_request (some c)) a out n p = λ e. cc
pump_item-phase now (passkey_response c) a out n p = absurd (n c refl)

pump_all-phase :
    (items : List (ℕ × QrItem)) (s : Adapter × List Event)
    → NoCode items
    → s.0.passkey_phase ≢ awaiting_confirm
    → (pump_all items s).0.passkey_phase ≢ awaiting_confirm
unfolding pump_all
pump_all-phase [] s n p = p
pump_all-phase ((now, item) ∷ more) s (n, ns) p =
    pump_all-phase more (pump_item now item s) ns (pump_item-phase now item s.0 s.1 n p)

refused-confirm :
    (again : Result SessionError (Unit {0})) (b : Adapter)
    → b.passkey_phase ≢ awaiting_confirm
    → confirm_passkey again b ≡ (err no_passkey_code, b)
unfolding confirm_passkey
refused-confirm again b p = by_phase b.passkey_phase p
  where
    by_phase :
        (phase : PasskeyPhase)
        → phase ≢ awaiting_confirm
        → confirm_in phase again b ≡ (err no_passkey_code, b)
    by_phase none_pending n = refl
    by_phase awaiting_response n = refl
    by_phase awaiting_confirm n = absurd (n refl)

settled-phase :
    (library : Result SessionError (Unit {0})) (a : Adapter)
    → (confirm_passkey library a).0 ≡ ok tt
    → (confirm_passkey library a).1.passkey_phase ≢ awaiting_confirm
unfolding confirm_passkey
settled-phase library a e = ground (arith, e)

-- A passkey step is confirmed at most once: after a confirmation went through, every further one is
-- refused for want of a code and changes nothing, whatever items of the QR channel arrive in between,
-- as long as none of them brings a new code.
pub confirm_passkey-once :
    (library again : Result SessionError (Unit {0})) (items : List (ℕ × QrItem)) (a : Adapter)
    (out : List Event)
    → (confirm_passkey library a).0 ≡ ok tt
    → NoCode items
    → let b = (pump_all items ((confirm_passkey library a).1, out)).0 in
      confirm_passkey again b ≡ (err no_passkey_code, b)
confirm_passkey-once library again items a out e n =
    refused-confirm again (pump_all items ((confirm_passkey library a).1, out)).0
      (pump_all-phase items ((confirm_passkey library a).1, out) n (settled-phase library a e))
