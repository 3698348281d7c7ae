-- ===== src/Service/Offline.antt =====
-- The commands that end a session while no worker has it (internal/domain/services/connection.go).
use zappermeow.Base.{ℕ, Bool, true, false, String, some, ok, err, ◌≡◌, refl, ◌∙◌, arith, ◌==◌}
use zappermeow.Domain.Instance as Instance
use zappermeow.Domain.Instance.{InstanceState}
use zappermeow.Lease.{Manager, acquire, ensure, set_desired, not_acquired}
use zappermeow.Rpc.Client.{no_owner}
use zappermeow.Service.{Call, Plane, prepare}
use zappermeow.Service.Commands.{disconnect, logout}
use zappermeow.Service.Front.{Front, Sessions, with_plane}
use zappermeow.Service.Preparing.{ensured-row, wished-row, intended-row}
use zappermeow.Service.Tenancy.{stopped-refused}
use zappermeow.Store.Instances.{
  InstanceRow, Instances, set_connection_intent, instance_id, get_instance, on_instance,
  with_intent, in_state, without_identity,
}
use zappermeow.Store.Leases.{stopped, with_desired, ensure_lease, set_desired_state}
use zappermeow.Store.Table.{find-update-some, key-find}

row_written :
    (id : ℕ) (f : InstanceRow → InstanceRow) (is : Instances) (i : InstanceRow)
    → ((x : InstanceRow) → (f x).id ≡ x.id)
    → get_instance id is ≡ some i
    → get_instance id (on_instance id f is) ≡ some (f i)
unfolding on_instance
row_written id f is i keeps e =
    find-update-some instance_id (λ x. x.id == id) f keeps id is i e
    ∙ ground (arith, key-find instance_id id is i e)

-- A disconnect whose session nobody has, while every call goes through: it succeeds, the instance is
-- disconnected and is not wanted online, and no worker at any time acquires its session.
pub disconnect-offline :
    {W : Type 0} (api : Sessions W) (m : Manager) (down : Call → Bool) (now id : ℕ) (w : Front W)
    (i : InstanceRow) (other : Manager) (later : ℕ)
    → ((c : Call) → down c ≡ false)
    → get_instance id w.plane.instances ≡ some i
    → ((v : Front W) → api.disconnect id now v ≡ (err no_owner, v))
    → let q = disconnect api m down now id w in
      (q.0 ≡ ok Instance.disconnected)
      × (get_instance id q.1.plane.instances
          ≡ some (in_state now Instance.disconnected (with_intent now Instance.stopped false i)))
      × ((acquire other false later id q.1.plane.leases).0 ≡ err not_acquired)
unfolding disconnect prepare ensure set_desired
disconnect-offline api m down now id w i other later up stored alone =
    let (r, there) = ensured-row now id w.plane.leases in
    let wished = wished-row now id stopped (ensure_lease now id w.plane.leases) r there in
    let meant = intended-row now id Instance.stopped false w.plane.instances i stored in
    let p : Plane = record (w.plane) {
      instances = set_connection_intent now id Instance.stopped false w.plane.instances;
      leases = set_desired_state now id stopped (ensure_lease now id w.plane.leases);
    } in
    let wrote : prepare m down now id Instance.stopped false stopped w.plane ≡ (ok tt, p) =
      rw (up Call.ensures, up Call.sets_intent, stored, up Call.sets_desired) refl in
    let q : Plane = record p {
      instances = on_instance id (in_state now Instance.disconnected) p.instances;
    } in
    let done : disconnect api m down now id w ≡ (ok Instance.disconnected, with_plane w q) =
      rw (wrote, alone (with_plane w p), up Call.sets_state) refl in
    rw done (
      refl,
      row_written id (in_state now Instance.disconnected) p.instances
          (with_intent now Instance.stopped false i) (λ x. refl) meant,
      stopped-refused other down now q.leases (with_desired now stopped r) id later wished refl,
    )

-- A logout of a paired instance whose session nobody has, while every call goes through: it succeeds and
-- says that the device was not removed remotely; the instance is registered again with no identity left
-- and is not wanted online.
logout-offline :
    {W : Type 0} (api : Sessions W) (m : Manager) (down : Call → Bool) (now id : ℕ) (w : Front W)
    (i : InstanceRow) (jid : String)
    → ((c : Call) → down c ≡ false)
    → get_instance id w.plane.instances ≡ some i
    → i.wa_jid ≡ some jid
    → ((v : Front W) → api.logout id true now v ≡ (err no_owner, v))
    → let q = logout api m down now id w in
      (q.0 ≡ ok (record { state = Instance.registered; remote_removed = false }))
      × (get_instance id q.1.plane.instances
          ≡ some (without_identity now (with_intent now Instance.stopped false i)))
unfolding logout set_desired
logout-offline api m down now id w i jid up stored paired alone =
    let meant = intended-row now id Instance.stopped false w.plane.instances i stored in
    let p = set_connection_intent now id Instance.stopped false w.plane.instances in
    (
      rw
          (
            up Call.reads_instance,
            stored,
            paired,
            up Call.sets_intent,
            alone _,
            up Call.clears_identity,
          )
          refl,
      rw
          (
            up Call.reads_instance,
            stored,
            paired,
            up Call.sets_intent,
            alone _,
            up Call.clears_identity,
          )
          (row_written id (without_identity now) p (with_intent now Instance.stopped false i)
            (λ x. refl) meant),
    )
