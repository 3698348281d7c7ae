-- ===== src/Service/Retried.antt =====
-- The wait for an owner (claimAndRetryConnect and claimAndRetryPairPhone of
-- internal/domain/services/connection.go).
use zappermeow.Base.{
  ℕ, zero, suc, ◌+◌, ◌*◌, ◌/◌, ◌≤◌, ◌<◌, Bool, false, ltb, Option, some, Result, ok, err, ◌≡◌, refl,
  inl, inr, arith, Bool-cases, Option-cases,
}
use zappermeow.Domain.Errors.{Error}
use zappermeow.Rpc.Client.{ClientError, no_owner}
use zappermeow.Service.{Call}
use zappermeow.Service.Front.{Front, Command, Waited, pause, round, retry, woken, claim_and_retry}

module _ {W A : Type 0} (command : Command W A) (wait : ℕ → Front W → Option (ℕ × Front W)) where
  -- A pause takes at least its length.
  abbrev pub Advances : Type 0
  Advances = (now now' : ℕ) (w w' : Front W) → wait now w ≡ some (now', w') → now + pause ≤ now'

  abbrev Returns : Waited W A → Type 0
  Returns x = (r : Result Error A × Front W) × (x ≡ some r)

  round-Returns :
      (next : ℕ → Front W → Waited W A) (deadline now : ℕ) (x : Result ClientError A × Front W)
      → (ltb deadline now ≡ false
          → (now' : ℕ) (w w' : Front W) → wait now w ≡ some (now', w')
          → Returns (next now' w'))
      → Returns (round command wait next deadline now x)
  round-Returns next deadline now (ok a, w) go = ((ok a, w), refl)
  round-Returns next deadline now (err (ClientError.failed t), w) go = (_, refl)
  round-Returns next deadline now (err (ClientError.rpc s), w) go = (_, refl)
  round-Returns next deadline now (err no_owner, w) go = elim (Bool-cases (ltb deadline now)) [
    | inl over ↦ rw over (_, refl)
    | inr open_ ↦ rw open_ (elim (Option-cases (wait now w)) [
      | inl cancelled ↦ rw cancelled (_, refl)
      | inr ((now', w'), later) ↦ rw later (go open_ now' w w' later)
    ])
  ]

  retry-Returns :
      (fuel deadline now : ℕ) (w : Front W)
      → Advances
      → deadline < now + fuel * pause
      → Returns (retry command wait (suc fuel) deadline now w)
  unfolding retry
  retry-Returns zero deadline now w advances enough =
      round-Returns (retry command wait zero deadline) deadline now (command now w)
        λ open_. absurd (ground (arith, open_, enough))
  retry-Returns (suc fuel) deadline now w advances enough =
      round-Returns (retry command wait (suc fuel) deadline) deadline now (command now w)
        λ open_ now' v w' later.
          retry-Returns fuel deadline now' w' advances (omega (arith, advances now now' v w' later))

  -- When a pause takes at least its length, the loop ends whatever the fleet and the client do: the fuel
  -- is never the reason for the answer.
  pub claim_and_retry-Returns :
      (down : Call → Bool) (claim_wait id now : ℕ) (w : Front W)
      → Advances
      → Returns (claim_and_retry command wait down claim_wait id now w)
  unfolding claim_and_retry
  claim_and_retry-Returns down claim_wait id now w advances =
      elim (Bool-cases (down (Call.claims id))) [
        | inl fails ↦ rw fails (_, refl)
        | inr sent ↦ rw sent (
            retry-Returns (suc (claim_wait / pause)) (now + claim_wait) now
              (woken command wait id w) advances (omega arith))
      ]

-- The fleet takes the session in time: after rounds without an owner, none of them past the deadline, a
-- round delivers the command.
pub data Delivers {W A : Type 0} (command : Command W A) (wait : ℕ → Front W → Option (ℕ × Front W))
    (deadline : ℕ) (a : A) (end_ : Front W) : ℕ → Front W → Type 0 where
  at_once :
      {now : ℕ} {w : Front W}
      → command now w ≡ (ok a, end_)
      → Delivers command wait deadline a end_ now w
  later :
      {now now' : ℕ} {w v w' : Front W}
      → command now w ≡ (err no_owner, v)
      → now ≤ deadline
      → wait now v ≡ some (now', w')
      → Delivers command wait deadline a end_ now' w'
      → Delivers command wait deadline a end_ now w

retry-Delivers :
    {W A : Type 0} (command : Command W A) (wait : ℕ → Front W → Option (ℕ × Front W))
    (deadline : ℕ) (a : A) (end_ : Front W) (fuel now : ℕ) (w : Front W)
    → Advances command wait
    → deadline < now + fuel * pause
    → Delivers command wait deadline a end_ now w
    → retry command wait (suc fuel) deadline now w ≡ some (ok a, end_)
unfolding retry
retry-Delivers command wait deadline a end_ fuel now w advances enough (at_once e) = rw e refl
retry-Delivers command wait deadline a end_ zero now w advances enough (later e open_ waited_ d) =
    absurd (omega arith)
retry-Delivers command wait deadline a end_ (suc fuel) now w advances enough
      (later {now' = now'} {v = v} {w' = w'} e open_ waited_ d) =
    let past : ltb deadline now ≡ false = ground (arith, open_) in
    rw (e, past, waited_)
      (retry-Delivers command wait deadline a end_ fuel now' w' advances
        (omega (arith, advances now now' v w' waited_)) d)

-- When the claim goes out and the fleet takes the session before the deadline, the command that woke it
-- is delivered, and its answer is the answer.
pub claim_and_retry-Delivers :
    {W A : Type 0} (command : Command W A) (wait : ℕ → Front W → Option (ℕ × Front W))
    (down : Call → Bool) (claim_wait id now : ℕ) (w : Front W) (a : A) (end_ : Front W)
    → Advances command wait
    → down (Call.claims id) ≡ false
    → Delivers command wait (now + claim_wait) a end_ now (woken command wait id w)
    → claim_and_retry command wait down claim_wait id now w ≡ some (ok a, end_)
unfolding claim_and_retry
claim_and_retry-Delivers command wait down claim_wait id now w a end_ advances sent d = rw sent (
    retry-Delivers command wait (now + claim_wait) a end_ (suc (claim_wait / pause)) now
      (woken command wait id w) advances (omega arith) d)
