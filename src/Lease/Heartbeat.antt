-- ===== src/Lease/Heartbeat.antt =====
-- What the heartbeat of internal/lease/lease.go returns and leaves behind.
use zappermeow.Base.{
  ℕ, true, false, ◌≡◌, ◌↔◌, refl, ap, sym, subst, ◌∙◌, List, map, some, In, In-select, In-select_of,
  In-map, In-map_of, select, arith, ok, ok_injective,
}
use zappermeow.Store.Table.{find-update-some, key-find}
use zappermeow.Store.Keys.{IsKeyed, In-find}
use zappermeow.Store.Leases.{
  running, LeaseRow, Leases, instance_key, get_lease, renews, renewed, heartbeat_leases,
}
use zappermeow.Lease.{Manager, heartbeat}

abbrev reported : LeaseRow → ℕ × ℕ
reported r = (r.instance_id, r.generation)

renews_iff :
    (w : ℕ) (r : LeaseRow)
    → (renews w r ≡ true) ↔ ((r.worker_id ≡ some w) × (r.desired_state ≡ running))
renews_iff w r = ground arith

-- The row of a session that this worker owns and that should run, before and after.
pub record IsRenewed (m : Manager) (now id g : ℕ) (t : Leases) : Type 0 where
  pub row : LeaseRow
  pub stored : get_lease id t ≡ some row
  pub owner : row.worker_id ≡ some m.worker_id
  pub wanted : row.desired_state ≡ running
  pub fenced : row.generation ≡ g
  pub after : get_lease id (heartbeat m false now t).1 ≡ some (renewed now row)

module _ (m : Manager) (now id g : ℕ) (t : Leases) where
  row_after :
      (r : LeaseRow)
      → get_lease id t ≡ some r
      → renews m.worker_id r ≡ true
      → get_lease id (heartbeat m false now t).1 ≡ some (renewed now r)
  unfolding heartbeat heartbeat_leases
  row_after r e pass =
      rw (find-update-some instance_key (renews m.worker_id) (renewed now) (λ x. refl) id t r e)
        (rw pass refl)

  to_renewed :
      IsKeyed instance_key t
      → In (id, g) (map reported (select (renews m.worker_id) t))
      → IsRenewed m now id g t
  to_renewed keyed i =
      let (r, j, same) = In-map reported _ (id, g) i in
      let (k, pass) = In-select _ t r j in
      let stored : get_lease id t ≡ some r = ap (λ (p : ℕ × ℕ). get_lease p.0 t) same ∙ keyed r k in
      let (mine, wanted) = (renews_iff m.worker_id r).0 pass in
      record {
        row = r;
        stored = stored;
        owner = mine;
        wanted = wanted;
        fenced = sym (ap (λ (p : ℕ × ℕ). p.1) same);
        after = row_after r stored pass;
      }

  from_renewed : IsRenewed m now id g t → In (id, g) (map reported (select (renews m.worker_id) t))
  from_renewed v =
      subst (λ p. In p (map reported (select (renews m.worker_id) t)))
        (λ i. (key-find instance_key id t v.row v.stored i, v.fenced i))
        (In-map_of reported _ v.row (
          In-select_of _ t v.row (In-find instance_key id t v.row v.stored)
            ((renews_iff m.worker_id v.row).1 (v.owner, v.wanted))))

-- The result of a heartbeat is exact: it holds a session and a generation precisely when the
-- session's row is owned by this worker, should run and has that generation, and the row is then
-- renewed at this instant.
pub heartbeat_iff :
    (m : Manager) (now id g : ℕ) (t : Leases) (held : List (ℕ × ℕ))
    → IsKeyed instance_key t
    → (heartbeat m false now t).0 ≡ ok held
    → In (id, g) held ↔ IsRenewed m now id g t
unfolding heartbeat heartbeat_leases
heartbeat_iff m now id g t held keyed e = (
  λ i. to_renewed m now id g t keyed (subst (In (id, g)) (sym (ok_injective e)) i),
  λ v. subst (In (id, g)) (ok_injective e) (from_renewed m now id g t v),
)
