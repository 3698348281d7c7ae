-- ===== src/Access/Issuing.antt =====
-- Issuing and listing the keys of an instance (Create and List of internal/domain/services/apikeys.go,
-- with their statements of internal/store/api_keys.sql.go). The digest and the random bytes are
-- arguments; the gauge that follows a commit is a metric.
use zappermeow.Base.{
  ℕ, Bool, List, [], ◌∷◌, ◌++◌, Option, none, some, String, Result, ok, err, ◌>>=◌, ◌==◌,
  if◌then◌else◌, is_empty, select, any,
}
use zappermeow.Access.ApiKey.{GeneratedApiKey, generate_api_key}
use zappermeow.Domain.Errors.{Error, err_internal, err_not_found}
use zappermeow.Domain.Validate.{trim_space, validate_label}
use zappermeow.Store.Accounts.{
  Accounts, ApiKeyRow, ApiKeyStatus, SecurityEvent, EventType, EventResult, TargetType, Meta,
}
use zappermeow.Store.Tenants.{DbError, Statement, get_instance_by_id_and_tenant}
use zappermeow.Store.Transaction.{TxCall, Body, transaction}

pub data IssueCall : Type 0 where
  reads creates records lists : IssueCall
  tx : TxCall → IssueCall

abbrev pub new_key : ℕ → ℕ → ℕ → Option String → GeneratedApiKey → ApiKeyRow
new_key now id instance label g = record {
  id = id;
  instance_id = instance;
  label = label;
  key_prefix = g.prefix;
  secret_hash = g.hash;
  status = ApiKeyStatus.active;
  created_at = now;
  revoked_at = none;
}

-- The digest is unique among the keys.
unfoldable pub create_api_key : ApiKeyRow → Statement ApiKeyRow
create_api_key k s =
    if any (λ (x : ApiKeyRow). x.secret_hash == k.secret_hash) s.keys
    then err (DbError.unique "api_keys_secret_hash_key")
    else ok (record s { keys = s.keys ++ (k ∷ []) }, k)

abbrev list_keys_by_instance : ℕ → Accounts → List ApiKeyRow
list_keys_by_instance instance s = select (λ (k : ApiKeyRow). k.instance_id == instance) s.keys

pub record CreatedApiKey : Type 0 where
  pub key : ApiKeyRow
  pub secret : List ℕ

-- An empty label is no label.
abbrev pub label_of : String → Option String
label_of label = if is_empty label then none else some label

abbrev created_event : ℕ → ℕ → ApiKeyRow → SecurityEvent
created_event actor instance k = record {
  type = EventType.api_key_created;
  actor_user_id = some actor;
  target_type = TargetType.api_key;
  target_id = some k.id;
  result = EventResult.success;
  metadata = ("key_prefix", Meta.bytes k.key_prefix) ∷ ("instance_id", Meta.number instance) ∷ [];
}

module _ (down : IssueCall → Bool) where
  abbrev inserted : ApiKeyRow → Body Accounts ApiKeyRow
  inserted k s =
      if down creates
      then err (err_internal "create key")
      else elim (create_api_key k s) [ err e ↦ err (err_internal "create key") | ok r ↦ ok r ]

  abbrev key_recorded :
      ℕ → ℕ → List ℕ → Accounts × ApiKeyRow → Result Error (Accounts × CreatedApiKey)
  key_recorded actor instance secret (s, k) =
      if down records
      then err (err_internal "record")
      else ok (
        record s { events = created_event actor instance k ∷ s.events },
        record { key = k; secret = secret },
      )

  abbrev pub create_body : ℕ → ApiKeyRow → List ℕ → Body Accounts CreatedApiKey
  create_body actor k secret s = do r ← inserted k s; key_recorded actor k.instance_id secret r

  abbrev created :
      ℕ
      → ℕ
      → ℕ
      → Option String
      → ℕ
      → Option GeneratedApiKey
      → Accounts
      → Accounts × Result Error CreatedApiKey
  created now id instance label actor none s = (s, err (err_internal "generate key"))
  created now id instance label actor (some g) s =
      transaction (λ c. down (tx c)) (create_body actor (new_key now id instance label g) g.secret)
        s

  -- `buf` is what the random bytes are, if they can be read.
  unfoldable pub create :
      (List ℕ → ℕ)
      → Option (List ℕ)
      → ℕ
      → ℕ
      → ℕ
      → ℕ
      → String
      → ℕ
      → Accounts
      → Accounts × Result Error CreatedApiKey
  create sha256 buf now id tenant instance raw actor s =
      let label = trim_space raw in
      elim (validate_label "body.label" label) [
        | some e ↦ (s, err e)
        | none ↦
            if down reads
            then (s, err (err_internal "get instance"))
            else elim (get_instance_by_id_and_tenant instance tenant s) [
              | none ↦ (s, err err_not_found)
              | some i ↦
                  created now id instance (label_of label) actor
                    (elim buf [ none ↦ none | some b ↦ generate_api_key sha256 b ]) s
            ]
      ]

  unfoldable pub list : ℕ → ℕ → Accounts → Result Error (List ApiKeyRow)
  list tenant instance s =
      if down reads
      then err (err_internal "get instance")
      else elim (get_instance_by_id_and_tenant instance tenant s) [
        | none ↦ err err_not_found
        | some i ↦
            if down lists
            then err (err_internal "list keys")
            else ok (list_keys_by_instance instance s)
      ]
