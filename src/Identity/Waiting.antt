-- ===== src/Identity/Waiting.antt =====
-- The attempts that have read the account and not yet gone on (internal/domain/services/auth.go).
use zappermeow.Base.{
  ℕ, zero, suc, ◌+◌, ◌≤◌, List, [], ◌∷◌, Option, none, some, String, ◌≡◌, refl, sym, inl, inr,
  arith, if◌then◌else◌, All, length, Option-cases,
}
use zappermeow.Store.Users.{UserJoined}
use zappermeow.Identity.Attempts.{is_shut, pick}

-- The row that an attempt under way has read is one of the account, under its hash.
abbrev pub IsOf : ℕ → String → Option UserJoined → Type 0
IsOf id hash o = (r : UserJoined) × (o ≡ some r) × (r.user.id ≡ id) × (r.user.password_hash ≡ hash)

abbrev pub opens : ℕ → Option UserJoined → ℕ
opens until none = 0
opens until (some r) = if is_shut until r.user then 0 else 1

-- The attempts under way that may still compare.
abbrev pub open_reads : ℕ → List (Option UserJoined) → ℕ
open_reads until [] = 0
open_reads until (o ∷ os) = opens until o + open_reads until os

opens-le : (until : ℕ) (o : Option UserJoined) → opens until o ≤ 1
opens-le until none = omega arith
opens-le until (some r) = ground arith

pub open_reads-le : (until : ℕ) (os : List (Option UserJoined)) → open_reads until os ≤ length os
open_reads-le until [] = omega arith
open_reads-le until (o ∷ os) = omega (arith, opens-le until o, open_reads-le until os)

-- What is left when one attempt goes on.
pub record Picked (until id : ℕ) (hash : String) (o : Option UserJoined)
    (rest reads : List (Option UserJoined)) : Type 0 where
  pub counted : open_reads until reads ≡ opens until o + open_reads until rest
  pub shorter : length reads ≡ 1 + length rest
  pub this : IsOf id hash o
  pub others : All (IsOf id hash) rest

pub pick-Picked :
    (until id : ℕ) (hash : String) (k : ℕ) (reads : List (Option UserJoined))
    (o : Option UserJoined) (rest : List (Option UserJoined))
    → All (IsOf id hash) reads
    → pick k reads ≡ some (o, rest)
    → Picked until id hash o rest reads
pick-Picked until id hash k [] o rest all e = absurd (ground (arith, e))
pick-Picked until id hash zero (x ∷ xs) o rest (here, all) e =
    let this : x ≡ o = ground (arith, e) in
    let others : xs ≡ rest = ground (arith, e) in
    rw (sym this, sym others)
      (record { counted = refl; shorter = omega arith; this = here; others = all })
pick-Picked until id hash (suc k) (x ∷ xs) o rest (here, all) e = elim (Option-cases (pick k xs)) [
  | inl missing ↦ absurd (ground (arith, e, missing))
  | inr ((y, ys), there) ↦
      let this : y ≡ o = ground (arith, e, there) in
      let others : (x ∷ ys) ≡ rest = ground (arith, e, there) in
      let more = pick-Picked until id hash k xs y ys all there in
      rw (sym this, sym others)
        (record {
          counted = omega (arith, more.counted);
          shorter = omega (arith, more.shorter);
          this = more.this;
          others = (here, more.others);
        })
]
