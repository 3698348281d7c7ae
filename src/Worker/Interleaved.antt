-- ===== src/Worker/Interleaved.antt =====
-- A worker whose relinks are interrupted (internal/worker/supervisor.go): `relink` stops a session and
-- starts it again without a lock, and the runtime's goroutine adopts in between. A step is an action of
-- Worker.Runtime or one half of a relink; what a worker keeps at any time is stated of those.
use zappermeow.Base.{
  ℕ, ◌+◌, ◌≤◌, Bool, false, ◌≡◌, ◌↔◌, ap, subst, inl, inr, List, [], ◌∷◌, some, Result, ok, err,
  Bool-cases, Option-cases, In, arith, length,
}
use zappermeow.Lease.{LeaseError, check_generation}
use zappermeow.Store.Leases.{LeaseRow, get_lease}
use zappermeow.Wa.Session.{SessionApi}
use zappermeow.Worker.State.{
  Call, Config, Managed, World, lookup, append, emit, record_loss, drop_snapshot,
}
use zappermeow.Worker.Sessions.{stop, has_capacity, start, adopt, publish_pairing_ended}
use zappermeow.Worker.Settings.{relink_stopped, relink_started}
use zappermeow.Worker.Runtime.{
  Action, adopts, reconciles, claims, others, act, handled, claim, adopt_each, adopt_listed,
  reconcile_once,
}
use zappermeow.Worker.Keeps.{Keeps, stop-Keeps}
use zappermeow.Worker.Relink.{rebuilt-Keeps}
use zappermeow.Worker.Invariant.{Inv, Keeps-Inv, start-Inv, adopt-Inv}
use zappermeow.Worker.Safety.{IsOwn, act-Keeps, Owned, fence_iff}

pub data Step : Type 0 where
  whole : Action → Step
  relink_stops : ℕ → Step
  relink_starts : (id generation : ℕ) → Step

module _ {S : Type 0} (api : SessionApi S) (c : Config) where
  unfoldable pub take_step : (Call → Bool) → ℕ → Step → World S → World S
  take_step down now (whole a) w = act api c down now a w
  take_step down now (relink_stops id) w = handled (relink_stopped api c down now) (lookup id w) w
  take_step down now (relink_starts id generation) w =
      (relink_started api c down now id generation w).1

  unfoldable pub run_steps : List ((Call → Bool) × ℕ × Step) → World S → World S
  run_steps [] w = w
  run_steps ((down, now, s) ∷ more) w = run_steps more (take_step down now s w)

abbrev second_half : Step → ℕ
second_half (relink_starts id generation) = 1
second_half _ = 0

-- How many second halves of a relink a run has.
abbrev rebuilds : List ((Call → Bool) × ℕ × Step) → ℕ
rebuilds [] = 0
rebuilds ((down, now, s) ∷ more) = second_half s + rebuilds more

-- No other process acquires leases in this worker's name; and when the second half of a relink comes, the
-- worker has not acquired the lease under another generation since the session ran.
abbrev IsOwnStep : {S : Type 0} → Config → Step → World S → Type 0
IsOwnStep c (whole a) w = IsOwn c a
IsOwnStep c (relink_stops id) w = Unit
IsOwnStep c (relink_starts id generation) w =
    (r : LeaseRow) × (get_lease id w.leases ≡ some r)
    × (generation ≤ r.generation)
    × (r.worker_id ≡ some c.manager.worker_id → r.generation ≡ generation)

abbrev AllOwnSteps :
    {S : Type 0} → SessionApi S → Config → List ((Call → Bool) × ℕ × Step) → World S → Type 0
AllOwnSteps api c [] w = Unit
AllOwnSteps api c ((down, now, s) ∷ more) w =
    IsOwnStep c s w × AllOwnSteps api c more (take_step api c down now s w)

module _ {S : Type 0} (api : SessionApi S) (c : Config) (n : ℕ) (down : Call → Bool) (now : ℕ)
    (limit : c.max_sessions ≤ n) where
  claim-Inv : (id : ℕ) (w : World S) → Inv c n w → Inv c n (claim api c down now id w)
  unfolding claim
  claim-Inv id w i = elim (Bool-cases (has_capacity c w)) [
    | inl room ↦ rw room (adopt-Inv api c n down now id w limit i)
    | inr full ↦ rw full i
  ]

  adopt_each-Inv :
      (ids : List ℕ) (w : World S) → Inv c n w → Inv c n (adopt_each api c down now ids w)
  adopt_each-Inv [] w i = i
  adopt_each-Inv (id ∷ ids) w i = elim (Bool-cases (has_capacity c w)) [
    | inl room ↦
        rw room (
          adopt_each-Inv ids (adopt api c down now id w).1
            (adopt-Inv api c n down now id w limit i))
    | inr full ↦ rw full i
  ]

  reconcile-Inv : (w : World S) → Inv c n w → Inv c n (reconcile_once api c down now w)
  unfolding reconcile_once
  reconcile-Inv w i = elim (Bool-cases (has_capacity c w)) [
    | inl room ↦ rw room (by_list _)
    | inr full ↦ rw full i
  ]
    where
      by_list : (r : Result LeaseError (List ℕ)) → Inv c n (adopt_listed api c down now r w)
      by_list (err e) = i
      by_list (ok ids) = adopt_each-Inv ids w i

  act-Inv : (a : Action) (w : World S) → IsOwn c a → Inv c n w → Inv c n (act api c down now a w)
  unfolding act
  act-Inv (adopts id) w o i = adopt-Inv api c n down now id w limit i
  act-Inv (claims id) w o i = claim-Inv id w i
  act-Inv reconciles w o i = reconcile-Inv w i
  act-Inv (others call) w o i = Keeps-Inv c n w _ (act-Keeps api c down now (others call) w o) i
  act-Inv a w o i = Keeps-Inv c n w _ (act-Keeps api c down now a w tt) i

module _ {S : Type 0} (api : SessionApi S) (c : Config) (down : Call → Bool) (now : ℕ) where
  widen-Inv : (n m : ℕ) (w : World S) → n ≤ m → Inv c n w → Inv c m w
  widen-Inv n m w le i = record {
    keyed = i.keyed;
    bounded = omega (arith, le, i.bounded);
    fenced = i.fenced;
  }

  relink_stopped-Keeps :
      (m : Managed S) (w : World S)
      → Keeps c.manager.worker_id w (relink_stopped api c down now m w)
  unfolding emit append record_loss publish_pairing_ended drop_snapshot stop
  relink_stopped-Keeps m w = stop-Keeps m.instance_id w

  take-Inv :
      (n : ℕ) (s : Step) (w : World S)
      → c.max_sessions ≤ n
      → IsOwnStep c s w
      → Inv c n w
      → Inv c (second_half s + n) (take_step api c down now s w)
  unfolding take_step
  take-Inv n (whole a) w limit own i =
      widen-Inv n _ _ (omega arith) (act-Inv api c n down now limit a w own i)
  take-Inv n (relink_stops id) w limit own i = elim (Option-cases (lookup id w)) [
    | inl missing ↦ rw missing (widen-Inv n _ _ (omega arith) i)
    | inr (m, there) ↦
        rw there (widen-Inv n _ _ (omega arith) (Keeps-Inv c n w _ (relink_stopped-Keeps m w) i))
  ]
  take-Inv n (relink_starts id g) w limit (r, there, low, mine) i =
      Keeps-Inv c (1 + n) (start api c down now id g w).1 _
        (rebuilt-Keeps api c down now id (start api c down now id g w))
        (start-Inv api c (1 + n) down now id g w r (widen-Inv n _ _ (omega arith) i)
          (omega (arith, i.bounded)) there low mine)

run_steps-Inv :
    {S : Type 0} (api : SessionApi S) (c : Config) (n : ℕ) (steps : List ((Call → Bool) × ℕ × Step))
    (w : World S)
    → c.max_sessions ≤ n
    → AllOwnSteps api c steps w
    → Inv c n w
    → Inv c (rebuilds steps + n) (run_steps api c steps w)
unfolding run_steps
run_steps-Inv api c n [] w limit own i = widen-Inv api c (λ x. false) 0 n _ w (omega arith) i
run_steps-Inv api c n ((down, now, s) ∷ more) w limit (own, owns) i =
    widen-Inv api c down now (rebuilds more + (second_half s + n)) _ _ (omega arith) (
      run_steps-Inv api c (second_half s + n) more (take_step api c down now s w)
        (omega (arith, limit)) owns (take-Inv api c down now n s w limit own i))

idle-Inv : {S : Type 0} (c : Config) (w : World S) → w.sessions ≡ [] → Inv c c.max_sessions w
idle-Inv c w e = record {
  keyed = λ m i. absurd (subst (In m) e i);
  bounded = omega (arith, ap length e);
  fenced = λ m i. absurd (subst (In m) e i);
}

-- Whatever commands, events, sweeps, failures of single calls and statements of other processes reach
-- a worker that starts with no session, also between the stop and the start of a relink, if no other
-- process acquires leases in its name, and if at the start of a relink the lease has its row, of no
-- lower generation than the session had, and of that generation while this worker owns it: the worker
-- never runs more sessions than its limit and the interrupted relinks together, so without those never
-- more than its limit; never two of one instance; and for each session it runs the fencing test passes
-- under the session's generation exactly while this worker owns the lease.
pub run-sessions :
    {S : Type 0} (api : SessionApi S) (c : Config) (steps : List ((Call → Bool) × ℕ × Step))
    (w : World S) (m : Managed S)
    → w.sessions ≡ []
    → AllOwnSteps api c steps w
    → In m (run_steps api c steps w).sessions
    → let v = run_steps api c steps w in
      (length v.sessions ≤ c.max_sessions + rebuilds steps)
      × (lookup m.instance_id v ≡ some m)
      × ((check_generation c.manager false m.instance_id m.generation v.leases ≡ ok tt)
          ↔ Owned c.manager.worker_id m.instance_id v.leases)
run-sessions api c steps w m idle own j =
    let i = run_steps-Inv api c c.max_sessions steps w (omega arith) own (idle-Inv c w idle) in
    let (r, e, low, mine) = i.fenced m j in
    (
      omega (arith, i.bounded),
      i.keyed m j,
      fence_iff c.manager m.instance_id m.generation (run_steps api c steps w).leases r e mine,
    )
