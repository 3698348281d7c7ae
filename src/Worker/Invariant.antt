-- ===== src/Worker/Invariant.antt =====
-- What holds of a worker at any time (internal/worker): a bound `n` on its sessions, and the fence that
-- ties a session to the generation of its lease.
use zappermeow.Base.{
  ℕ, ◌≤◌, ◌<◌, Bool, false, ◌≡◌, refl, sym, ap, ◌∙◌, subst, inl, inr, List, [], ◌∷◌, none, some,
  Result, ok, err, Bool-cases, Option-cases, In, arith, length, select, ◌==◌, In-select,
}
use zappermeow.Store.Instances.{InstanceRow}
use zappermeow.Store.Keys.{IsKeyed, cons-IsKeyed}
use zappermeow.Store.Leases.{LeaseRow, Leases, get_lease}
use zappermeow.Store.Table.{find}
use zappermeow.Lease.{LeaseError, acquire}
use zappermeow.Lease.Ownership.{acquire-other, acquire-row}
use zappermeow.Wa.Session.{SessionApi, SessionError}
use zappermeow.Worker.State.{
  Call, WorkerError, Config, Managed, World, managed_key, lookup, load_instance, append,
}
use zappermeow.Worker.Sessions.{
  has_capacity, put, built, loaded_by, start, adopted, leased, adopt, is_dialled, stop,
}
use zappermeow.Worker.Keeps.{
  Keeps, Keeps-refl, hand_back-Keeps, is_not, find-stopped, length-select, Trims-stop,
}

-- The row of the session's lease: its generation is at least the session's, and it is the session's
-- while this worker is the owner.
abbrev Fenced : {S : Type 0} → ℕ → Leases → Managed S → Type 0
Fenced me t m =
    (r : LeaseRow) × (get_lease m.instance_id t ≡ some r)
    × (m.generation ≤ r.generation)
    × (r.worker_id ≡ some me → r.generation ≡ m.generation)

pub record Inv {S : Type 0} (c : Config) (n : ℕ) (w : World S) : Type 0 where
  pub keyed : IsKeyed managed_key w.sessions
  pub bounded : length w.sessions ≤ n
  pub fenced : (m : Managed S) → In m w.sessions → Fenced c.manager.worker_id w.leases m

module _ {S : Type 0} (c : Config) (n : ℕ) where
  pub Keeps-Inv : (w v : World S) → Keeps c.manager.worker_id w v → Inv c n w → Inv c n v
  Keeps-Inv w v k i = record {
    keyed = k.sessions.keyed i.keyed;
    bounded = omega (arith, k.sessions.shorter, i.bounded);
    fenced = λ m j.
        let (m', j', same_id, same_generation) = k.sessions.from m j in
        let (r, e, low, mine) = i.fenced m' j' in
        let stored : get_lease m.instance_id w.leases ≡ some r =
          ap (λ x. get_lease x w.leases) (sym same_id) ∙ e in
        let (r', e', higher) = k.leases.forth m.instance_id r stored in
        (
          r',
          e',
          omega (arith, low, higher, same_generation),
          λ o.
              let (r0, e0, o0, g) = k.leases.back m.instance_id r' e' o in
              let one : r0 ≡ r = some_lem (sym e0 ∙ stored) in
              sym g
              ∙ ap (λ (x : LeaseRow). x.generation) one
              ∙ mine (sym (ap (λ (x : LeaseRow). x.worker_id) one) ∙ o0)
              ∙ same_generation,
        );
  }
    where
      some_lem : {x y : LeaseRow} → some x ≡ some y → x ≡ y
      some_lem e = cc

  missing-other :
      (id : ℕ) (xs : List (Managed S)) (m : Managed S)
      → find managed_key id xs ≡ none
      → In m xs
      → (m.instance_id == id) ≡ false
  unfolding find
  missing-other id [] m e i = absurd i
  missing-other id (x ∷ xs) m e (inl same) = ground (arith, same)
  missing-other id (x ∷ xs) m e (inr i) = ground (arith, missing-other id xs m)

  acquire-Inv :
      (down : Bool) (now id : ℕ) (w : World S)
      → lookup id w ≡ none
      → Inv c n w
      → Inv c n (record w { leases = (acquire c.manager down now id w.leases).1 })
  acquire-Inv down now id w missing i = record {
    keyed = i.keyed;
    bounded = i.bounded;
    fenced = λ m j.
        let (r, e, low, mine) = i.fenced m j in
        (
          r,
          acquire-other c.manager now id w.leases down m.instance_id
                (missing-other id w.sessions m missing j)
              ∙ e,
          low,
          mine,
        );
  }

module _ {S : Type 0} (api : SessionApi S) (c : Config) (n : ℕ) (down : Call → Bool) (now : ℕ) where
  -- A session started under the generation of its row.
  put-Inv :
      (id g : ℕ) (s : S) (dial : Bool) (w : World S) (r : LeaseRow)
      → Inv c n w
      → length w.sessions < n
      → get_lease id w.leases ≡ some r
      → g ≤ r.generation
      → (r.worker_id ≡ some c.manager.worker_id → r.generation ≡ g)
      → Inv c n (put api c down now id g s dial w)
  unfolding put stop
  put-Inv id g s dial w r i room there low mine = record {
    keyed =
        cons-IsKeyed managed_key _ (select (is_not id) w.sessions) (find-stopped id w.sessions)
          ((Trims-stop id w.sessions).keyed i.keyed);
    bounded = omega (arith, room, length-select (is_not id) w.sessions);
    fenced = λ m j. each m j;
  }
    where
      each :
          (m : Managed S)
          → In m (put api c down now id g s dial w).sessions
          → Fenced c.manager.worker_id w.leases m
      each m (inl e) = subst (Fenced c.manager.worker_id w.leases) (sym e) (r, there, low, mine)
      each m (inr j) = i.fenced m (In-select (is_not id) w.sessions m j).0

  pub start-Inv :
      (id g : ℕ) (w : World S) (r : LeaseRow)
      → Inv c n w
      → length w.sessions < n
      → get_lease id w.leases ≡ some r
      → g ≤ r.generation
      → (r.worker_id ≡ some c.manager.worker_id → r.generation ≡ g)
      → Inv c n (start api c down now id g w).1
  unfolding start
  start-Inv id g w r i room there low mine = by_row (load_instance down now id w)
    where
      by_session :
          (row : InstanceRow) (x : Result SessionError S)
          → Inv c n (built api c down now id g row w x).1
      by_session row (err e) = i
      by_session row (ok s) = put-Inv id g s (is_dialled row) w r i room there low mine

      by_row : (x : Result WorkerError InstanceRow) → Inv c n (loaded_by api c down now id g w x).1
      by_row (err e) = i
      by_row (ok row) = by_session row _

  adopted-Inv :
      (id : ℕ) (x : Result WorkerError (Unit {0}) × World S)
      → Inv c n x.1
      → Inv c n (adopted api c down now id x).1
  unfolding append
  adopted-Inv id (err e, w) i = Keeps-Inv c n w _ (hand_back-Keeps c down now id w) i
  adopted-Inv id (ok u, w) i = Keeps-Inv c n w _ (Keeps-refl w) i

  leased-Inv :
      (id : ℕ) (w : World S) (x : Result LeaseError ℕ)
      → Inv c n w
      → length w.sessions < n
      → ((g : ℕ)
          → x ≡ ok g
          → (r : LeaseRow) × (get_lease id w.leases ≡ some r) × (r.generation ≡ g))
      → Inv c n (leased api c down now id w x).1
  leased-Inv id w (err e) i room row = i
  leased-Inv id w (ok g) i room row =
      let (r, there, same) = row g refl in
      adopted-Inv id (start api c down now id g w)
        (start-Inv id g w r i room there (omega (arith, same)) (λ o. same))

  pub adopt-Inv :
      (id : ℕ) (w : World S)
      → c.max_sessions ≤ n
      → Inv c n w
      → Inv c n (adopt api c down now id w).1
  unfolding adopt
  adopt-Inv id w limit i = elim (Bool-cases (has_capacity c w)) [
    | inr full ↦ rw full i
    | inl room ↦ elim (Option-cases (lookup id w)) [
      | inr (m, there) ↦ rw (room, there) i
      | inl missing ↦
          rw (room, missing)
            (leased-Inv id
              (record w { leases = (acquire c.manager (down Call.acquires) now id w.leases).1 })
              (acquire c.manager (down Call.acquires) now id w.leases).0
              (acquire-Inv c n (down Call.acquires) now id w missing i) (ground (arith, limit))
              (λ g e. acquire-row c.manager now id w.leases (down Call.acquires) g e))
    ]
  ]
