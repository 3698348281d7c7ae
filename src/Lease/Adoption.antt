-- ===== src/Lease/Adoption.antt =====
-- What the reconciliation sweep and the heartbeat of internal/lease/lease.go return.
use zappermeow.Base.{
  ℕ, ◌+◌, ◌≤◌, true, false, ◌≡◌, ◌↔◌, refl, ap, sym, subst, ◌∙◌, List, [], ◌∷◌, map, some, inl, inr,
  In, In-select, In-select_of, In-map, In-map_of, In-take, take, take_all, length, ok_injective,
  select, Option-cases, arith, ok,
}
use zappermeow.Domain.Reason.{DisconnectReason, is_permanent, permanent_reason_list}
use zappermeow.Domain.Reason.Laws.{IsKnown, listed-eq-is_permanent}
use zappermeow.Store.Table.{key-find}
use zappermeow.Store.Keys.{IsKeyed, In-find}
use zappermeow.Store.Leases.{LeaseRow, Leases, instance_key, get_lease, can_acquire, acquire_lease}
use zappermeow.Store.Instances.{InstanceRow, Instances, get_instance}
use zappermeow.Store.Adoptable.{
  is_retried, is_adoptable, insert_by_age, order_by_age, list_adoptable_leases,
}
use zappermeow.Lease.{Manager, acquire, adoptable}

In-insert_by_age : (r x : LeaseRow) (t : List LeaseRow) → In x (insert_by_age r t) ↔ In x (r ∷ t)
unfolding insert_by_age
In-insert_by_age r x [] = (λ i. i, λ i. i)
In-insert_by_age r x (y ∷ t) = ground (arith, In-insert_by_age r x t)

In-order_by_age : (x : LeaseRow) (t : List LeaseRow) → In x (order_by_age t) ↔ In x t
unfolding order_by_age
In-order_by_age x [] = (λ i. i, λ i. i)
In-order_by_age x (r ∷ t) =
    ground (arith, In-insert_by_age r x (order_by_age t), In-order_by_age x t)

module _ (m : Manager) (now : ℕ) (instances : Instances) (t : Leases) where
  -- The row of a lease that the sweep may take: it should run, is free, and its instance is not
  -- parked on a permanent failure.
  pub record IsCandidate (id : ℕ) : Type 0 where
    pub row : LeaseRow
    pub stored : get_lease id t ≡ some row
    pub free : can_acquire now m.expiry row ≡ true
    pub instance_row : InstanceRow
    pub joined : get_instance id instances ≡ some instance_row
    pub retried : is_retried permanent_reason_list instance_row.last_disconnect_reason ≡ true

  is_adoptable_sound :
      (r : LeaseRow)
      → is_adoptable now m.expiry permanent_reason_list instances r ≡ true
      → (can_acquire now m.expiry r ≡ true)
        × ((i : InstanceRow) × (get_instance r.instance_id instances ≡ some i)
            × (is_retried permanent_reason_list i.last_disconnect_reason ≡ true))
  unfolding is_adoptable
  is_adoptable_sound r h = elim (Option-cases (get_instance r.instance_id instances)) [
    | inl missing ↦ absurd (ground arith)
    | inr (i, there) ↦ (ground arith, (i, there, ground arith))
  ]

  abbrev pub candidates : List ℕ
  candidates =
      map instance_key
        (order_by_age (select (is_adoptable now m.expiry permanent_reason_list instances) t))

  candidates_sound : (id : ℕ) → IsKeyed instance_key t → In id candidates → IsCandidate id
  candidates_sound id keyed i =
      let (r, j, same) = In-map instance_key _ id i in
      let (k, pass) = In-select _ t r ((In-order_by_age r _).0 j) in
      let (free, (row, there, retried)) = is_adoptable_sound r pass in
      record {
        row = r;
        stored = ap (λ n. get_lease n t) same ∙ keyed r k;
        free = free;
        instance_row = row;
        joined = ap (λ n. get_instance n instances) same ∙ there;
        retried = retried;
      }

  candidates_complete : (id : ℕ) → IsCandidate id → In id candidates
  unfolding is_adoptable
  candidates_complete id c =
      let key : c.row.instance_id ≡ id = key-find instance_key id t c.row c.stored in
      let pass : is_adoptable now m.expiry permanent_reason_list instances c.row ≡ true =
        rw (ap (λ n. get_instance n instances) key ∙ c.joined, c.free, c.retried) refl in
      subst (λ n. In n candidates) key
        (In-map_of instance_key _ c.row (
          (In-order_by_age c.row _).1
            (In-select_of _ t c.row (In-find instance_key id t c.row c.stored) pass)))

  ids_eq :
      (limit : ℕ) (ids : List ℕ)
      → adoptable m false now limit instances t ≡ ok ids
      → take limit candidates ≡ ids
  unfolding adoptable list_adoptable_leases
  ids_eq limit ids e = ok_injective e

  not_permanent :
      (id : ℕ) (c : IsCandidate id) (reason : DisconnectReason)
      → c.instance_row.last_disconnect_reason ≡ some reason
      → IsKnown reason
      → is_permanent reason ≡ false
  not_permanent id c reason last known =
      let kept : is_retried permanent_reason_list (some reason) ≡ true =
        subst (λ o. is_retried permanent_reason_list o ≡ true) last c.retried in
      ground (arith, listed-eq-is_permanent reason known)

  acquire_free :
      (id : ℕ) (r : LeaseRow)
      → get_lease id t ≡ some r
      → can_acquire now m.expiry r ≡ true
      → (acquire m false now id t).0 ≡ ok (r.generation + 1)
  unfolding acquire acquire_lease
  acquire_free id r e h = ground arith

-- What the sweep lists it may take: an acquisition of a listed session at the same instant succeeds
-- with the next generation, and the last disconnection of its instance, if it has a known reason,
-- was not a permanent one.
adoptable-acquire :
    (m : Manager) (now limit id : ℕ) (instances : Instances) (t : Leases) (ids : List ℕ)
    → IsKeyed instance_key t
    → adoptable m false now limit instances t ≡ ok ids
    → In id ids
    → (r : LeaseRow) × (i : InstanceRow) × (get_lease id t ≡ some r)
      × (get_instance id instances ≡ some i)
      × ((acquire m false now id t).0 ≡ ok (r.generation + 1))
      × ((reason : DisconnectReason)
          → i.last_disconnect_reason ≡ some reason
          → IsKnown reason
          → is_permanent reason ≡ false)
adoptable-acquire m now limit id instances t ids keyed e i =
    let c =
      candidates_sound m now instances t id keyed
        (In-take limit _ id (subst (In id) (sym (ids_eq m now instances t limit ids e)) i)) in
    (
      c.row,
      c.instance_row,
      c.stored,
      c.joined,
      acquire_free m now instances t id c.row c.stored c.free,
      not_permanent m now instances t id c,
    )

-- Nothing is forgotten: when the limit covers the candidates, every lease that should run, is free
-- and whose instance is not parked is listed.
pub adoptable_complete :
    (m : Manager) (now limit id : ℕ) (instances : Instances) (t : Leases) (ids : List ℕ)
    → adoptable m false now limit instances t ≡ ok ids
    → length (candidates m now instances t) ≤ limit
    → IsCandidate m now instances t id
    → In id ids
adoptable_complete m now limit id instances t ids e fits c =
    subst (In id)
      (sym (take_all limit (candidates m now instances t) fits)
        ∙ ids_eq m now instances t limit ids e)
      (candidates_complete m now instances t id c)
