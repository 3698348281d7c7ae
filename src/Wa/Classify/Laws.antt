-- ===== src/Wa/Classify/Laws.antt =====
-- The verdicts of internal/wa/classify.go against the tables of internal/domain.
use zappermeow.Base.{ℕ, ◌<◌, Bool, true, ◌≡◌, ◌≢◌, ◌↔◌, some, arith}
use zappermeow.Domain.Instance.{connecting, connected, can_transition}
use zappermeow.Domain.Reason
use zappermeow.Domain.Reason.{DisconnectReason, is_permanent}
use zappermeow.Wa.Classify.{
  LibraryEvent, Classification, stream_replaced, classify_disconnect, is_alarm,
}

module _ (declared : LibraryEvent → Bool) (now : ℕ) (e : LibraryEvent) {c : Classification}
    (verdict : classify_disconnect declared now e ≡ some c) where
  -- A verdict stops reconnection exactly when its reason is one of the domain's permanent reasons,
  -- names a known reason, and leaves `connecting` exactly when it is permanent.
  classify_disconnect-permanent :
      (c.permanent ≡ is_permanent c.reason)
      × (Reason.is_valid c.reason ≡ true)
      × ((c.permanent ≡ true) ↔ (c.state ≢ connecting))
  unfolding classify_disconnect Reason.is_valid
  classify_disconnect-permanent = ground arith

  -- A connected instance, or one that is being dialled, may legally move to the verdict's state.
  classify_disconnect-can_transition :
      (can_transition connected c.state ≡ true) × (can_transition connecting c.state ≡ true)
  unfolding classify_disconnect can_transition
  classify_disconnect-can_transition = ground arith

  -- Only the stream replaced elsewhere raises the alarm about exclusive ownership, and a ban
  -- deadline is set only by a ban, in the future.
  classify_disconnect-alarm :
      ((is_alarm c ≡ true) ↔ (e ≡ stream_replaced))
      × ((at : ℕ)
          → c.ban_expires_at ≡ some at
          → (now < at) × (c.reason ≡ DisconnectReason.temporary_ban))
  unfolding classify_disconnect is_alarm
  classify_disconnect-alarm = (ground arith, λ at h. ground arith)
