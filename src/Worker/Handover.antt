-- ===== src/Worker/Handover.antt =====
-- Where a session and its lease end up (internal/worker): after a heartbeat, after a lost connection,
-- after a disconnect, and after an adoption that failed.
use zappermeow.Base.{
  not, ℕ, Bool, true, false, ◌&&◌, ◌≡◌, ◌≢◌, refl, sym, ap, ◌∙◌, subst, inl, inr, List, [], ◌∷◌,
  Option, some, none, ok, err, Result, Bool-cases, Option-cases, arith, select, ◌==◌, elem, map, In,
  In-select, In-map, In-map_of, elem→In,
}
use zappermeow.Domain.Instance.{InstanceState}
use zappermeow.Store.Keys.{IsKeyed}
use zappermeow.Store.Leases.{
  LeaseRow, Leases, get_lease, instance_key, owned_by, released, renews, with_desired, stopped,
  acquire_lease, release_lease, set_desired_state, heartbeat_leases,
}
use zappermeow.Store.Table.{find-update, touched, key-find}
use zappermeow.Lease.{Manager, heartbeat, acquire, release, set_desired, not_acquired}
use zappermeow.Lease.Heartbeat.{IsRenewed, heartbeat_iff}
use zappermeow.Wa.Session.{SessionApi, SessionError, Loss, disconnected}
use zappermeow.Worker.State.{
  Call, WorkerError, Config, Managed, World, managed_key, lookup, load_instance, record_loss,
  append, emit,
}
use zappermeow.Store.Instances.{InstanceRow}
use zappermeow.Worker.Sessions.{
  built, loaded_by, stop, drop, held, hand_back, adopt, has_capacity, start, adopted,
}
use zappermeow.Worker.Commands.{disconnect}
use zappermeow.Worker.Handler.{handle, handle_disconnect}
use zappermeow.Worker.Runtime.{heartbeat_once, drop_lost}
use zappermeow.Worker.Keeps.{is_not, find-stopped}

module _ {S : Type 0} (api : SessionApi S) (c : Config) (down : Call → Bool) (now : ℕ) where
  drop_lost-In :
      (names ids : List ℕ) (w : World S) (m : Managed S)
      → In m (drop_lost api c down now names ids w).sessions
      → In m w.sessions × (In m.instance_id ids → elem m.instance_id names ≡ true)
  unfolding drop append stop
  drop_lost-In names [] w m i = (i, λ j. absurd j)
  drop_lost-In names (id ∷ ids) w m i = elim (Bool-cases (elem id names)) [
    | inl there ↦
        let (j, h) = drop_lost-In names ids w m (rw there at i) in
        (j, λ k. elim k [ inl e ↦ ap (λ x. elem x names) e ∙ there | inr l ↦ h l ])
    | inr gone ↦
        let (j, h) = drop_lost-In names ids (drop api c down now id w) m (rw gone at i) in
        let (k, pass) = In-select (is_not id) w.sessions m j in
        (k, λ l. elim l [ inl e ↦ absurd (ground (arith, pass, e)) | inr x ↦ h x ])
  ]

-- After a heartbeat that went through, every session that still runs is one whose lease this worker
-- owned at that instant and that should run, and the lease is renewed: whatever was taken over or
-- stopped is dropped.
pub heartbeat_once-IsRenewed :
    {S : Type 0} (api : SessionApi S) (c : Config) (down : Call → Bool) (now : ℕ) (w : World S)
    (m : Managed S)
    → down Call.heartbeats ≡ false
    → IsKeyed instance_key w.leases
    → In m (heartbeat_once api c down now w).sessions
    → (g : ℕ) × IsRenewed c.manager now m.instance_id g w.leases
unfolding heartbeat_once heartbeat heartbeat_leases
heartbeat_once-IsRenewed api c down now w m up keyed i =
    let rows =
      map (λ (r : LeaseRow). (r.instance_id, r.generation))
        (select (renews c.manager.worker_id) w.leases) in
    let after = record w { leases = (heartbeat c.manager false now w.leases).1 } in
    let (j, h) =
      drop_lost-In api c down now (map (λ (p : ℕ × ℕ). p.0) rows) (held after) after m
        (rw up at i) in
    let member =
      elem→In m.instance_id (map (λ (p : ℕ × ℕ). p.0) rows)
        (h (In-map_of managed_key after.sessions m j)) in
    let (p, k, same) = In-map (λ (p : ℕ × ℕ). p.0) rows m.instance_id member in
    (
      p.1,
      (heartbeat_iff c.manager now m.instance_id p.1 w.leases rows keyed refl).0
          (subst (λ x. In {A = ℕ × ℕ} (x, p.1) rows) (sym same) k),
    )

module _ (c : Config) (now id : ℕ) where
  -- The row after the two statements.
  abbrev final_row : Option LeaseRow → Option LeaseRow
  final_row o =
      touched (λ r. (r.instance_id == id) && owned_by c.manager.worker_id r) (released now)
        (touched (λ r. r.instance_id == id) (with_desired now stopped) o)

  row_after :
      (t : Leases)
      → get_lease id (release_lease now id c.manager.worker_id (set_desired_state now id stopped t))
        ≡ final_row (get_lease id t)
  unfolding release_lease set_desired_state
  row_after t =
      find-update instance_key _ (released now) (λ r. refl) id _
      ∙ ap (touched _ (released now))
          (find-update instance_key _ (with_desired now stopped) (λ r. refl) id t)

  -- Not wanted, then handed back: nobody can take it.
  parked-refused :
      (t : Leases) (m : Manager) (later : ℕ)
      → (acquire m false later id
          (release c.manager false now id (set_desired c.manager false now id stopped t).1).1).0
        ≡ err not_acquired
  unfolding acquire acquire_lease release release_lease set_desired set_desired_state
  parked-refused t m later = elim (Option-cases (get_lease id t)) [
    | inl missing ↦ let gone = row_after t ∙ ap final_row missing in rw (gone, acquire_lease) refl
    | inr (r, there) ↦
        let parked_row = row_after t ∙ ap final_row there in
        rw (parked_row, acquire_lease) (ground (arith, key-find instance_key id t r there))
  ]

-- A lost connection reported by the library, when the two statements on the lease go through: if the loss
-- is permanent and the write of the instance goes through too, the session no longer runs and no worker
-- can acquire it at any time until somebody asks for it again; if the loss is transient, or if the write
-- of the instance fails, the worker keeps its sessions and the leases as they are.
pub handle-disconnected :
    {S : Type 0} (api : SessionApi S) (c : Config) (down : Call → Bool) (now : ℕ) (m : Managed S)
    (l : Loss) (w : World S)
    → down Call.sets_desired ≡ false
    → down Call.releases ≡ false
    → let v = handle api c down now m (disconnected l) w in
      ((l.permanent && not (down Call.records_disconnect)) ≡ true
        → (lookup m.instance_id v ≡ none)
          × ((other : Manager) (later : ℕ)
              → (acquire other false later m.instance_id v.leases).0 ≡ err not_acquired))
      × ((l.permanent && not (down Call.records_disconnect)) ≡ false
          → (v.sessions ≡ w.sessions) × (v.leases ≡ w.leases))
unfolding handle handle_disconnect record_loss emit append hand_back stop
handle-disconnected api c down now m l w wants hands = (
  λ ends.
      let permanent : l.permanent ≡ true = ground (arith, ends) in
      let writes : down Call.records_disconnect ≡ false = ground (arith, ends) in
      (
        rw (writes, permanent) (find-stopped m.instance_id w.sessions),
        λ other later.
            rw (writes, permanent, wants, hands)
              (parked-refused c now m.instance_id w.leases other later),
      ),
  λ stays. elim (Bool-cases (down Call.records_disconnect)) [
    | inl fails ↦ (rw fails refl, rw fails refl)
    | inr writes ↦
        let transient : l.permanent ≡ false = ground (arith, stays, writes) in
        (rw (writes, transient) refl, rw (writes, transient) refl)
  ],
)

disconnect-missing :
    {S : Type 0} (api : SessionApi S) (c : Config) (down : Call → Bool) (now id : ℕ) (w : World S)
    (s : InstanceState)
    → (disconnect api c down now id w).0 ≡ ok s
    → lookup id (disconnect api c down now id w).1 ≡ none
unfolding disconnect record_loss emit hand_back stop
disconnect-missing {S = S} api c down now id w s e = elim (Option-cases (lookup id w)) [
  | inl missing ↦ rw (missing, disconnect) missing
  | inr (m, there) ↦ elim (Bool-cases (down Call.records_disconnect)) [
    | inl failing ↦ absurd (refused m there failing e)
    | inr working ↦
        rw (there, disconnect, working, key-find managed_key id w.sessions m there)
          (find-stopped id _)
  ]
]
  where
    refused :
        (m : Managed S)
        → lookup id w ≡ some m
        → down Call.records_disconnect ≡ true
        → (disconnect api c down now id w).0 ≡ ok s
        → ⊥
    refused m there failing e = let x = rw (there, disconnect, failing) at e in cc

absent-disconnect :
    {S : Type 0} (api : SessionApi S) (c : Config) (down : Call → Bool) (now id : ℕ) (w : World S)
    → lookup id w ≡ none
    → disconnect api c down now id w ≡ (ok InstanceState.disconnected, w)
unfolding disconnect
absent-disconnect api c down now id w missing = rw (missing, disconnect) refl

-- Disconnecting a session again, at any time, whatever fails then, is accepted and changes nothing.
pub disconnect-idempotent :
    {S : Type 0} (api : SessionApi S) (c : Config) (down faults : Call → Bool) (now later id : ℕ)
    (w : World S) (s : InstanceState)
    → (disconnect api c down now id w).0 ≡ ok s
    → let v = (disconnect api c down now id w).1 in
      (lookup id v ≡ none)
      × (disconnect api c faults later id v ≡ (ok InstanceState.disconnected, v))
unfolding disconnect
disconnect-idempotent api c down faults now later id w s e =
    let missing = disconnect-missing api c down now id w s e in
    (missing, absent-disconnect api c faults later id (disconnect api c down now id w).1 missing)

module _ {S : Type 0} (api : SessionApi S) (c : Config) (down : Call → Bool) (now id g : ℕ) where
  -- A start that fails changes nothing.
  start-unchanged :
      (w : World S) (e : WorkerError)
      → (start api c down now id g w).0 ≡ err e
      → (start api c down now id g w).1 ≡ w
  unfolding start
  start-unchanged w e failed = by_row (load_instance down now id w) failed
    where
      by_session :
          (row : InstanceRow) (x : Result SessionError S)
          → (built api c down now id g row w x).0 ≡ err e
          → (built api c down now id g row w x).1 ≡ w
      by_session row (err y) f = refl
      by_session row (ok s) f = cc

      by_row :
          (x : Result WorkerError InstanceRow)
          → (loaded_by api c down now id g w x).0 ≡ err e
          → (loaded_by api c down now id g w x).1 ≡ w
      by_row (err y) f = refl
      by_row (ok row) f = by_session row _ f

  adopt-started :
      (w : World S)
      → has_capacity c w ≡ true
      → lookup id w ≡ none
      → (acquire c.manager (down Call.acquires) now id w.leases).0 ≡ ok g
      → adopt api c down now id w
        ≡ adopted api c down now id (
            start api c down now id g
              (record w { leases = (acquire c.manager (down Call.acquires) now id w.leases).1 }))
  unfolding adopt
  adopt-started w room missing got = rw (room, missing, got, adopt) refl

module _ {S : Type 0} (api : SessionApi S) (c : Config) (down : Call → Bool) (now id : ℕ) where
  adopted-err :
      (x : Result WorkerError (Unit {0}) × World S) (e : WorkerError)
      → (adopted api c down now id x).0 ≡ err e
      → (x.0 ≡ err e) × ((adopted api c down now id x).1 ≡ hand_back c down now id x.1)
  adopted-err (err y, v) e f = (f, refl)
  adopted-err (ok u, v) e f = cc

released-unowned :
    (now me id : ℕ) (t : Leases) (r : LeaseRow)
    → get_lease id (release_lease now id me t) ≡ some r
    → r.worker_id ≢ some me
unfolding release_lease
released-unowned now me id t r e o =
    let after =
      find-update instance_key (λ r. (r.instance_id == id) && owned_by me r) (released now)
        (λ x. refl) id t in
    elim (Option-cases (get_lease id t)) [
      | inl missing ↦ absurd (ground (arith, missing, after))
      | inr (x, there) ↦ absurd (ground (arith, there, key-find instance_key id t x there, after))
    ]

-- An adoption that had room, got the lease and could not start the session runs no session of the
-- instance: the sessions are as before. When the statement of the release goes through, the lease is
-- not the worker's own; when it fails, the leases stay as the acquisition left them.
pub adopt-hands_back :
    {S : Type 0} (api : SessionApi S) (c : Config) (down : Call → Bool) (now id g : ℕ) (w : World S)
    (e : WorkerError)
    → has_capacity c w ≡ true
    → lookup id w ≡ none
    → (acquire c.manager (down Call.acquires) now id w.leases).0 ≡ ok g
    → (adopt api c down now id w).0 ≡ err e
    → let v = (adopt api c down now id w).1 in
      (v.sessions ≡ w.sessions)
      × (down Call.releases ≡ false
          → (r : LeaseRow) → get_lease id v.leases ≡ some r
          → r.worker_id ≢ some c.manager.worker_id)
      × (down Call.releases ≡ true
          → v.leases ≡ (acquire c.manager (down Call.acquires) now id w.leases).1)
unfolding hand_back release release_lease
adopt-hands_back {S = S} api c down now id g w e room missing got failed =
    let after = record w { leases = (acquire c.manager (down Call.acquires) now id w.leases).1 } in
    let same = adopt-started api c down now id g w room missing got in
    let (start_failed, back) =
      adopted-err api c down now id (start api c down now id g after) e
        (ap (λ x. x.0) (sym same) ∙ failed) in
    let ends : (adopt api c down now id w).1 ≡ hand_back c down now id after =
      ap (λ x. x.1) same
      ∙ back
      ∙ ap (hand_back c down now id) (start-unchanged api c down now id g after e start_failed) in
    (
      ap (λ (v : World S). v.sessions) ends,
      λ hands r there.
          released-unowned now c.manager.worker_id id after.leases r
            (rw hands at (ap (λ (v : World S). get_lease id v.leases) (sym ends) ∙ there)),
      λ fails. ap (λ (v : World S). v.leases) ends ∙ rw fails refl,
    )
