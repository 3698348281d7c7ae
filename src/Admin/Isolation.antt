-- ===== src/Admin/Isolation.antt =====
-- What a tenant can do to an instance that is not its own (internal/domain/services/instances.go).
use zappermeow.Base.{ℕ, Bool, true, false, String, List, none, err, ◌≡◌, refl, arith}
use zappermeow.Admin.Instances.{get, rename, delete}
use zappermeow.Admin.Projection.{Fleet, plane_of, back}
use zappermeow.Admin.Recording.{AdminCall}
use zappermeow.Domain.Errors.{err_not_found}
use zappermeow.Domain.Trail.{ConnectionEvent}
use zappermeow.Domain.Validate.{normalize_name, validate_name}
use zappermeow.Lease.{Manager, acquire, not_acquired}
use zappermeow.Rpc.Client.{no_owner}
use zappermeow.Service.{Call}
use zappermeow.Service.Commands.{terminate}
use zappermeow.Service.Front.{Front, Sessions}
use zappermeow.Service.Tenancy.{wished-refused}
use zappermeow.Store.Accounts.{Accounts}
use zappermeow.Store.Tenants.{get_instance_by_id_and_tenant, rename_instance, delete_instance}
use zappermeow.Store.Transaction.{TxCall, transaction}

-- What a deletion touches beside the tables: the leases and Redis, the trail, the workers.
abbrev Beside : Type 0 → Type 0
Beside W = Fleet × (List ConnectionEvent × W)

abbrev front_of : {W : Type 0} → Accounts × Beside W → Front W
front_of (s, (fleet, (trail, w))) = record {
  plane = plane_of (s, fleet);
  trail = trail;
  workers = w;
}

abbrev tables_of : {W : Type 0} → Accounts → Front W → Accounts × Beside W
tables_of s f = let (s', fleet) = back s f.plane in (s', (fleet, (f.trail, f.workers)))

-- `Terminate` of the connection service, as the instance service calls it.
unfoldable pub end_session :
    {W : Type 0}
    → Sessions W
    → Manager
    → (Call → Bool)
    → ℕ
    → ℕ
    → Accounts × Beside W
    → Accounts × Beside W
end_session api m down now id w = tables_of w.0 (terminate api m down now id (front_of w))

-- An identifier that names no instance of the caller's tenant, whether it names one of another tenant or
-- none at all, with a name that is valid, while no worker has the session and every call goes through:
-- reading, renaming and deleting answer that it is not found, and the tables stay as they are. But the
-- deletion has by then stopped the lease of the instance, whoever's it is: no worker acquires its session
-- at any time until somebody asks for it.
pub delete-foreign :
    {W : Type 0} (down : AdminCall → Bool) (now : ℕ) (lower : String → String) (id tenant actor : ℕ)
    (raw : String) (api : Sessions W) (m : Manager) (down_call : Call → Bool) (s : Accounts)
    (x : Beside W) (other : Manager) (later : ℕ)
    → ((c : AdminCall) → down c ≡ false)
    → ((c : Call) → down_call c ≡ false)
    → validate_name "body.name" (normalize_name raw) ≡ none
    → get_instance_by_id_and_tenant id tenant s ≡ none
    → ((v : Front W) → api.logout id true now v ≡ (err no_owner, v))
    → let v = delete down (end_session api m down_call now) id tenant actor (s, x) in
      (get down tenant id s ≡ err err_not_found)
      × (rename down now lower id tenant raw actor s ≡ (s, err err_not_found))
      × (v.1 ≡ err err_not_found)
      × (v.0.0 ≡ s)
      × ((acquire other false later id v.0.1.0.0).0 ≡ err not_acquired)
unfolding get rename rename_instance delete delete_instance transaction end_session terminate
delete-foreign down now lower id tenant actor raw api m down_call s x other later up calls valid
      foreign alone =
    (
      rw (up AdminCall.reads, foreign) refl,
      ground (arith, valid, foreign, up (AdminCall.tx TxCall.begins), up AdminCall.updates),
      ground (
        arith,
        ended,
        foreign,
        up (AdminCall.tx TxCall.begins),
        up AdminCall.counts,
        up AdminCall.deletes,
      ),
      ground (
        arith,
        ended,
        foreign,
        up (AdminCall.tx TxCall.begins),
        up AdminCall.counts,
        up AdminCall.deletes,
      ),
      rw (alone (front_of (s, x)), calls Call.sets_desired)
          (wished-refused m other now x.0.0 id later),
    )
  where
    ended : (end_session api m down_call now id (s, x)).0 ≡ s
    ended = rw (alone (front_of (s, x)), calls Call.sets_desired) refl
