-- ===== src/Admin/Instances.antt =====
-- internal/domain/services/instances.go: registering, renaming and deleting an instance of the tenant
-- that the caller's token names. `terminate` ends the session first; its failure is ignored, and what it
-- does to the instances and leases is the Service's.
use zappermeow.Base.{
  ℕ, Bool, true, false, String, List, [], ◌∷◌, none, some, Result, ok, err, ◌>>=◌, if◌then◌else◌,
  same_text,
}
use zappermeow.Domain.Errors.{Error, err_internal, err_not_found, err_conflict}
use zappermeow.Domain.Validate.{normalize_name, validate_name}
use zappermeow.Store.Accounts.{Accounts, SecurityEvent, EventType, EventResult, TargetType, Meta}
use zappermeow.Store.Instances.{InstanceRow, Instances}
use zappermeow.Store.Tenants.{
  create_instance, rename_instance, delete_instance, count_keys_by_instance,
  get_instance_by_id_and_tenant, list_instances_by_tenant,
}
use zappermeow.Store.Transaction.{Body, transaction}
use zappermeow.Admin.Recording.{AdminCall, run, record_event}

-- instanceConstraints.
abbrev conflict_field : String → Error
conflict_field name =
    if same_text name "instances_tenant_id_name_uk"
    then err_conflict "body.name" "an instance with this name already exists in this tenant"
    else err_conflict "body" "conflicts with an existing resource"

abbrev instance_event : EventType → ℕ → ℕ → List (String × Meta) → SecurityEvent
instance_event type actor id metadata = record {
  type = type;
  actor_user_id = some actor;
  target_type = TargetType.instance;
  target_id = some id;
  result = EventResult.success;
  metadata = metadata;
}

module _ (down : AdminCall → Bool) (now : ℕ) (lower : String → String) where
  abbrev create_body : ℕ → ℕ → String → ℕ → Body Accounts InstanceRow
  create_body id tenant name actor s = do
    r ←
        run conflict_field false (down AdminCall.creates) (create_instance lower now id tenant name)
          s
    s' ←
        record_event (down AdminCall.records)
          (instance_event EventType.instance_created actor r.1.id
            (("instance_name", Meta.text r.1.name) ∷ ("tenant_id", Meta.number tenant) ∷ []))
          r.0
    ok (s', r.1)

  unfoldable pub create : ℕ → ℕ → String → ℕ → Accounts → Accounts × Result Error InstanceRow
  create id tenant raw actor s = elim (validate_name "body.name" (normalize_name raw)) [
    | some e ↦ (s, err e)
    | none ↦
        transaction (λ c. down (AdminCall.tx c)) (create_body id tenant (normalize_name raw) actor)
          s
  ]

  abbrev rename_body : ℕ → ℕ → String → ℕ → Body Accounts InstanceRow
  rename_body id tenant name actor s = do
    r ←
        run conflict_field true (down AdminCall.updates) (rename_instance lower now id tenant name)
          s
    s' ←
        record_event (down AdminCall.records)
          (instance_event EventType.instance_updated actor r.1.id
            (("instance_name", Meta.text r.1.name) ∷ []))
          r.0
    ok (s', r.1)

  unfoldable pub rename : ℕ → ℕ → String → ℕ → Accounts → Accounts × Result Error InstanceRow
  rename id tenant raw actor s = elim (validate_name "body.name" (normalize_name raw)) [
    | some e ↦ (s, err e)
    | none ↦
        transaction (λ c. down (AdminCall.tx c)) (rename_body id tenant (normalize_name raw) actor)
          s
  ]

module _ (down : AdminCall → Bool) where
  unfoldable pub list : ℕ → Accounts → Result Error Instances
  list tenant s =
      if down AdminCall.reads
      then err (err_internal "list instances")
      else ok (list_instances_by_tenant tenant s)

  unfoldable pub get : ℕ → ℕ → Accounts → Result Error InstanceRow
  get tenant id s =
      if down AdminCall.reads
      then err (err_internal "get instance")
      else elim (get_instance_by_id_and_tenant id tenant s) [
        | none ↦ err err_not_found
        | some i ↦ ok i
      ]

  abbrev deleted_event : ℕ → InstanceRow → ℕ → SecurityEvent
  deleted_event actor i count = instance_event EventType.instance_deleted actor i.id (
      ("instance_name", Meta.text i.name)
      ∷ ("api_keys_revoked", Meta.number count)
      ∷ ("cascade_delete_scope", Meta.text "api_keys")
      ∷ [])

  abbrev delete_body : ℕ → ℕ → ℕ → Body Accounts (Unit {0})
  delete_body id tenant actor s =
      if down AdminCall.counts then err (err_internal "count keys") else do
        r ← run conflict_field true (down AdminCall.deletes) (delete_instance id tenant) s
        s' ←
            record_event (down AdminCall.records)
              (deleted_event actor r.1 (count_keys_by_instance id s)) r.0
        ok (s', tt)

  abbrev beside : {X A : Type 0} → X → Accounts × A → (Accounts × X) × A
  beside x (s, a) = ((s, x), a)

  -- The session is ended before the tables are read; `X` is what else it touches.
  unfoldable pub delete :
      {X : Type 0}
      → (ℕ → Accounts × X → Accounts × X)
      → ℕ
      → ℕ
      → ℕ
      → Accounts × X
      → (Accounts × X) × Result Error (Unit {0})
  delete terminate id tenant actor w =
      let ended = terminate id w in
      beside ended.1
        (transaction (λ c. down (AdminCall.tx c)) (delete_body id tenant actor) ended.0)
