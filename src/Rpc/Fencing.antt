-- ===== src/Rpc/Fencing.antt =====
-- The fence before every command of internal/worker/grpcserver.go, and how the client of
-- internal/api/sessionclient/client.go follows a change of owner.
use zappermeow.Base.{
  none, ℕ, true, false, ◌≡◌, ◌≢◌, ◌↔◌, inl, inr, refl, Option, some, Result, ok, err, arith,
  Option-cases, ◌==◌,
}
use zappermeow.Lease.{Owner, LeaseError, check_generation}
use zappermeow.Rpc.{RpcStatus}
use zappermeow.Rpc.Client.{
  CachedOwner, ClientError, rpc, call, resolve, should_retry, owner_read, cached_by, finished,
  again, first_answer, first,
}
use zappermeow.Rpc.Server.{Fence, fence, serve}
use zappermeow.Store.Leases.{LeaseRow, get_lease}
use zappermeow.Worker.State.{WorkerError, Config, World}

-- The row of the instance has that generation and names this worker, which does not drain.
abbrev pub Admits : {S : Type 0} → Config → ℕ → ℕ → World S → Type 0
Admits c id g w =
    (w.draining ≡ false)
    × ((r : LeaseRow) × (get_lease id w.leases ≡ some r)
        × (r.generation ≡ g)
        × (r.worker_id ≡ some c.manager.worker_id))

-- A command under a fence is admitted exactly when the worker does not drain and owns the instance's
-- lease under that generation; one that is not admitted changes nothing, whatever the command.
pub serve-fenced :
    {S A B : Type 0} (c : Config) (id g : ℕ) (w : World S)
    (command : ℕ → World S → Result WorkerError A × World S) (respond : A → B)
    → let f : Option Fence = some (record { instance_id = some id; generation = g }) in
      ((fence c false f w ≡ ok id) ↔ Admits c id g w)
      × ((s : RpcStatus)
          → fence c false f w ≡ err s
          → serve c false command respond f w ≡ (err s, w))
unfolding fence serve check_generation
serve-fenced c id g w command respond = (
  elim (Option-cases (get_lease id w.leases)) [
    | inl missing ↦
        (λ e. absurd (ground (arith, missing)), λ (flag, (r, there, same, mine)). absurd (cc))
    | inr (r, there) ↦ (
      λ e. (ground arith, (r, there, ground arith, ground arith)),
      λ (flag, (x, there', same, mine)). ground arith,
    )
  ],
  λ s refused. rw (refused, serve) refl,
)

nonzero : (n : ℕ) → n ≢ 0 → (n == 0) ≡ false
nonzero n h = ground (arith, h)

-- A remembered owner that refuses the command without having touched anything, by its generation or
-- because it cannot be reached, costs one attempt and nothing else: when the owner that the lease names
-- does not refuse for such a reason too, the answer, an error included, what is remembered and what
-- happens to the workers are those of a client that remembers nothing.
pub call-outdated :
    {W A : Type 0} (read : W → Result LeaseError Owner)
    (run : CachedOwner → W → Result RpcStatus A × W) (old : CachedOwner) (w : W) (s : RpcStatus)
    → old.addr ≢ 0
    → run old w ≡ (err s, w)
    → should_retry s ≡ true
    → ((o : CachedOwner) (t : RpcStatus) (v : W)
        → owner_read (read w) ≡ ok o
        → run o w ≡ (err t, v)
        → should_retry t ≡ false)
    → call read run (some old) w ≡ call read run none w
unfolding call resolve
call-outdated {W = W} {A = A} read run old w s known refused outdated final =
    rw (nonzero old.addr known, refused, outdated)
      (named (owner_read (read w)) (λ o e. answered o e (run o w) refl))
  where
    answered :
        (o : CachedOwner)
        → owner_read (read w) ≡ ok o
        → (x : Result RpcStatus A × W) → run o w ≡ x
        → finished read run (some o) x ≡ first_answer read run (some o) x
    answered o e (ok a, v) done = refl
    answered o e (err t, v) done = rw (final o t v e done) refl

    named :
        (r : Result ClientError CachedOwner)
        → ((o : CachedOwner)
            → r ≡ ok o
            → finished read run (some o) (run o w) ≡ first_answer read run (some o) (run o w))
        → again read run (r, cached_by r none) w ≡ first read run (r, cached_by r none) w
    named (err e) same = refl
    named (ok o) same = same o refl

-- A refusal that is not about ownership goes to the caller as it is, after one attempt.
call-refused :
    {W A : Type 0} (read : W → Result LeaseError Owner)
    (run : CachedOwner → W → Result RpcStatus A × W) (o : CachedOwner) (w v : W) (s : RpcStatus)
    → o.addr ≢ 0
    → run o w ≡ (err s, v)
    → should_retry s ≡ false
    → call read run (some o) w ≡ (err (rpc s), (some o, v))
unfolding call resolve
call-refused read run o w v s known refused final =
    let cached : (o.addr == 0) ≡ false = nonzero o.addr known in
    rw (cached, refused, final, call, resolve) refl
