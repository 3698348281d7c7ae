-- ===== src/Store/Transaction.antt =====
-- A transaction of internal/domain/services: begin, a body, commit, with the rollback that every early
-- return runs. The body reads and writes its own view, which replaces the tables when it commits. A commit
-- that fails is internal; TenantService.Delete and PasswordService.Change return the bare error, of which
-- the boundary makes the same.
use zappermeow.Base.{Bool, Result, ok, err, if◌then◌else◌, ◌≡◌, arith}
use zappermeow.Domain.Errors.{Error, err_internal}

pub data TxCall : Type 0 where
  begins commits : TxCall

-- A body either fails, and its writes are lost, or gives a value and the tables it leaves.
abbrev pub Body : Type 0 → Type 0 → Type 0
Body S A = S → Result Error (S × A)

module _ {S A : Type 0} (down : TxCall → Bool) where
  abbrev committed : S → Result Error (S × A) → S × Result Error A
  committed s (err e) = (s, err e)
  committed s (ok (s', a)) =
      if down TxCall.commits then (s, err (err_internal "commit")) else (s', ok a)

  unfoldable pub transaction : Body S A → S → S × Result Error A
  transaction body s =
      if down TxCall.begins then (s, err (err_internal "begin")) else committed s (body s)

  -- A transaction that fails changes nothing.
  transaction-eq-err :
      (body : Body S A) (s s' : S) (e : Error) → transaction body s ≡ (s', err e) → s' ≡ s
  unfolding transaction
  transaction-eq-err body s s' e h = ground arith

  -- One that succeeds is its body.
  pub transaction-eq-ok :
      (body : Body S A) (s s' : S) (a : A) → transaction body s ≡ (s', ok a) → body s ≡ ok (s', a)
  unfolding transaction
  transaction-eq-ok body s s' a h = ground arith
