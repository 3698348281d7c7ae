-- ===== src/Service/Tenancy.antt =====
-- Suspending a tenant and bringing it back (internal/domain/services/connection.go).
use zappermeow.Base.{
  ℕ, Bool, true, false, ◌&&◌, ◌≡◌, ◌↔◌, refl, sym, ap, ◌∙◌, inl, inr, List, [], ◌∷◌, some, none,
  err, Bool-cases, Option-cases, if◌then◌else◌, arith, ◌==◌, ==_iff, elem, In,
}
use zappermeow.Domain.Instance.{is_active}
use zappermeow.Events.{claim}
use zappermeow.Lease.{Manager, acquire, set_desired, set_tenant_desired, not_acquired}
use zappermeow.Store.Instances.{InstanceRow, Instances, instance_id, get_instance}
use zappermeow.Store.Keys.{IsKeyed}
use zappermeow.Store.Leases.{
  running, stopped, LeaseRow, Leases, instance_key, get_lease, with_desired, set_desired_state,
  set_tenant_desired_state, acquire_lease,
}
use zappermeow.Store.Table.{find-update, touched, find-update-some, key-find}
use zappermeow.Service.{
  Call, Plane, list_instance_ids_by_tenant, list_active_intent_instances_by_tenant, resume_each,
  resume_tenant, suspend_tenant, apply_tenant_status,
}

In-listed :
    (tenant : ℕ) (is : Instances) (i : InstanceRow)
    → In i is
    → i.tenant_id ≡ tenant
    → elem i.id (list_instance_ids_by_tenant tenant is) ≡ true
unfolding list_instance_ids_by_tenant
In-listed tenant [] i j t = absurd j
In-listed tenant (x ∷ is) i (inl e) t = ground (arith, t, e)
In-listed tenant (x ∷ is) i (inr j) t = ground (arith, In-listed tenant is i j t)

In-active :
    (tenant : ℕ) (is : Instances) (i : InstanceRow)
    → In i is
    → i.tenant_id ≡ tenant
    → is_active i.connection_intent ≡ true
    → elem i.id (list_active_intent_instances_by_tenant tenant is) ≡ true
unfolding list_active_intent_instances_by_tenant
In-active tenant [] i j t a = absurd j
In-active tenant (x ∷ is) i (inl e) t a = ground (arith, t, e, a)
In-active tenant (x ∷ is) i (inr j) t a = ground (arith, In-active tenant is i j t a)

-- An identifier that is listed belongs to a row of the tenant whose intent is active.
active-In :
    (tenant id : ℕ) (is : Instances)
    → elem id (list_active_intent_instances_by_tenant tenant is) ≡ true
    → (i : InstanceRow) × In i is × (i.id ≡ id) × (is_active i.connection_intent ≡ true)
unfolding list_active_intent_instances_by_tenant
active-In tenant id [] h = cc
active-In tenant id (x ∷ is) h =
    elim (Bool-cases ((x.tenant_id == tenant) && is_active x.connection_intent)) [
      | inr outside ↦
          let (i, j, e, a) = active-In tenant id is (rw outside at h) in (i, inr j, e, a)
      | inl inside ↦ elim (Bool-cases (x.id == id)) [
        | inl same ↦ (x, inl refl, (==_iff x.id id).0 same, ground arith)
        | inr other ↦
            let (i, j, e, a) = active-In tenant id is (rw (inside, other) at h) in (i, inr j, e, a)
      ]
    ]

merged :
    (now id x : ℕ) (ids : List ℕ) (r : LeaseRow)
    → r.instance_id ≡ id
    → (if elem id ids
        then running
        else (if r.instance_id == x then with_desired now running r else r).desired_state)
      ≡ (if elem id (x ∷ ids) then running else r.desired_state)
merged now id x ids r same = ground (arith, same)

module _ (m : Manager) (down : Call → Bool) (now : ℕ) where
  -- The row after a suspension that went through.
  suspended-row :
      (tenant : ℕ) (p : Plane) (i : InstanceRow) (r : LeaseRow)
      → down Call.sets_tenant ≡ false
      → In i p.instances
      → i.tenant_id ≡ tenant
      → get_lease i.id p.leases ≡ some r
      → get_lease i.id (suspend_tenant m down now tenant p).leases
        ≡ some (with_desired now stopped r)
  unfolding suspend_tenant set_tenant_desired set_tenant_desired_state
  suspended-row tenant p i r up j t stored = rw up (
      find-update-some instance_key _ (with_desired now stopped) (λ x. refl) i.id p.leases r stored
      ∙ ap some (
          rw (key-find instance_key i.id p.leases r stored, In-listed tenant p.instances i j t)
            refl))

  resumed-row :
      (id : ℕ) (ids : List ℕ) (p : Plane) (r : LeaseRow)
      → ((c : Call) → down c ≡ false)
      → get_lease id p.leases ≡ some r
      → (r' : LeaseRow) × (get_lease id (resume_each m down now ids p).leases ≡ some r')
        × (r'.desired_state ≡ (if elem id ids then running else r.desired_state))
  unfolding resume_each set_desired set_desired_state
  resumed-row id [] p r up stored = (r, stored, refl)
  resumed-row id (x ∷ ids) p r up stored =
      let first = if r.instance_id == x then with_desired now running r else r in
      let woken : Plane = record p {
        leases = set_desired_state now x running p.leases;
        redis = claim false x p.redis;
      } in
      let here : get_lease id woken.leases ≡ some first =
        find-update-some instance_key _ (with_desired now running) (λ y. refl) id p.leases r
          stored in
      let (r', there, wish) = resumed-row id ids woken first up here in
      let same = key-find instance_key id p.leases r stored in
      (r', rw (up Call.sets_desired, up (Call.claims x)) there, wish ∙ merged now id x ids r same)

  -- Nobody acquires what should not run.
  pub stopped-refused :
      (t : Leases) (r : LeaseRow) (id later : ℕ)
      → get_lease id t ≡ some r
      → r.desired_state ≡ stopped
      → (acquire m false later id t).0 ≡ err not_acquired
  unfolding acquire acquire_lease
  stopped-refused t r id later e wish = ground (arith, e, wish)

  missing-refused :
      (t : Leases) (id later : ℕ)
      → get_lease id t ≡ none
      → (acquire m false later id t).0 ≡ err not_acquired
  unfolding acquire acquire_lease
  missing-refused t id later e = ground (arith, e)

  suspended-missing :
      (tenant id : ℕ) (p : Plane)
      → down Call.sets_tenant ≡ false
      → get_lease id p.leases ≡ none
      → get_lease id (suspend_tenant m down now tenant p).leases ≡ none
  unfolding suspend_tenant set_tenant_desired set_tenant_desired_state
  suspended-missing tenant id p up e = rw up (
      find-update instance_key _ (with_desired now stopped) (λ x. refl) id p.leases
      ∙ ap (touched _ (with_desired now stopped)) e)

-- On the tables that a suspension leaves, if its statement on the leases went through, no worker at any
-- time acquires the session of an instance of the tenant; the instances, and so their intents, are
-- untouched.
pub suspend-refused :
    (m : Manager) (down : Call → Bool) (now tenant : ℕ) (p : Plane) (i : InstanceRow)
    (other : Manager) (later : ℕ)
    → down Call.sets_tenant ≡ false
    → In i p.instances
    → i.tenant_id ≡ tenant
    → let q = apply_tenant_status m down now tenant false p in
      ((acquire other false later i.id q.leases).0 ≡ err not_acquired) × (q.instances ≡ p.instances)
unfolding apply_tenant_status suspend_tenant
suspend-refused m down now tenant p i other later up j t = (
  elim (Option-cases (get_lease i.id p.leases)) [
    | inl missing ↦
        missing-refused other down now (suspend_tenant m down now tenant p).leases i.id later
          (suspended-missing m down now tenant i.id p up missing)
    | inr (r, stored) ↦
        stopped-refused other down now (suspend_tenant m down now tenant p).leases
          (with_desired now stopped r) i.id later
          (suspended-row m down now tenant p i r up j t stored) refl
  ],
  refl,
)

-- Nobody acquires what was asked to stop, whether it has a row or not.
pub wished-refused :
    (m : Manager) (other : Manager) (now : ℕ) (t : Leases) (id later : ℕ)
    → (acquire other false later id (set_desired m false now id stopped t).1).0 ≡ err not_acquired
unfolding set_desired set_desired_state
wished-refused m other now t id later = elim (Option-cases (get_lease id t)) [
  | inl missing ↦
      missing-refused other (λ c. false) now _ id later
        (find-update instance_key _ (with_desired now stopped) (λ x. refl) id t
          ∙ ap (touched _ (with_desired now stopped)) missing)
  | inr (r, there) ↦
      stopped-refused other (λ c. false) now _ (with_desired now stopped r) id later
        (find-update-some instance_key _ (with_desired now stopped) (λ x. refl) id t r there
          ∙ ground (arith, key-find instance_key id t r there))
        refl
]

-- The listed identifier is that of the instance itself.
restored_active :
    (m : Manager) (down : Call → Bool) (tenant : ℕ) (p : Plane) (i : InstanceRow)
    → IsKeyed instance_id p.instances
    → In i p.instances
    → elem i.id (list_active_intent_instances_by_tenant tenant p.instances) ≡ true
    → is_active i.connection_intent ≡ true
restored_active m down tenant p i keyed j listed =
    let (x, k, same, active) = active-In tenant i.id p.instances listed in
    let one : some x ≡ some i =
      sym (keyed x k) ∙ ap (λ n. get_instance n p.instances) same ∙ keyed i j in
    let equal : x ≡ i = cc in
    ap (λ (y : InstanceRow). is_active y.connection_intent) (sym equal) ∙ active

-- Suspending a tenant and bringing it back, if every call goes through: the leases of its instances
-- then want to run exactly where the instance's intent is active, whatever they wanted before.
pub resume-restores :
    (m : Manager) (down : Call → Bool) (now later tenant : ℕ) (p : Plane) (i : InstanceRow)
    (r : LeaseRow)
    → ((c : Call) → down c ≡ false)
    → IsKeyed instance_id p.instances
    → In i p.instances
    → i.tenant_id ≡ tenant
    → get_lease i.id p.leases ≡ some r
    → let q =
        apply_tenant_status m down later tenant true
          (apply_tenant_status m down now tenant false p) in
      (r' : LeaseRow) × (get_lease i.id q.leases ≡ some r')
      × ((r'.desired_state ≡ running) ↔ (is_active i.connection_intent ≡ true))
unfolding apply_tenant_status resume_tenant suspend_tenant
resume-restores m down now later tenant p i r up keyed j t stored =
    let down_rows = suspended-row m down now tenant p i r (up Call.sets_tenant) j t stored in
    let q = suspend_tenant m down now tenant p in
    let ids = list_active_intent_instances_by_tenant tenant p.instances in
    let (r', there, wish) =
      resumed-row m down later i.id ids q (with_desired now stopped r) up down_rows in
    (
      r',
      rw (up Call.lists_active) there,
      (
        λ runs. restored_active m down tenant p i keyed j (elim (Bool-cases (elem i.id ids)) [
          | inl listed ↦ listed
          | inr unlisted ↦ absurd (ground (arith, runs, wish, unlisted))
        ]),
        λ active.
            let listed = In-active tenant p.instances i j t active in ground (arith, wish, listed),
      ),
    )
