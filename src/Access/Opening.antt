-- ===== src/Access/Opening.antt =====
-- A key that was issued opens its instance (internal/domain/services/apikeys.go and
-- internal/api/middleware/auth_apikey.go).
use zappermeow.Base.{
  ℕ, Bool, false, List, [], ◌∷◌, ◌++◌, Option, some, String, ok, err, ◌≡◌, refl, ap, sym, inl, inr,
  arith, ◌==◌, Bool-cases, Option-cases, any, if◌then◌else◌,
}
use zappermeow.Access.ApiKey.{
  GeneratedApiKey, generate_api_key, generated, random_base62, api_key_prefix,
}
use zappermeow.Access.Keys.{
  KeyCall, operator, authenticate, get_key_for_auth, join_tenant, is_addressed,
}
use zappermeow.Access.Issuing.{
  IssueCall, CreatedApiKey, create, create_body, create_api_key, new_key, label_of,
}
use zappermeow.Domain.Errors.{err_not_found}
use zappermeow.Domain.Validate.{trim_space}
use zappermeow.Store.Accounts.{Accounts, ApiKeyRow, TenantRow, TenantStatus, key_hash, get_tenant}
use zappermeow.Store.Instances.{InstanceRow, get_instance}
use zappermeow.Store.Table.{find}
use zappermeow.Store.Tenants.{get_instance_by_id_and_tenant}
use zappermeow.Store.Transaction.{transaction-eq-ok}

-- A row behind rows with other digests is found.
find-append_new :
    (k : ApiKeyRow) (ks : List ApiKeyRow)
    → any (λ (x : ApiKeyRow). x.secret_hash == k.secret_hash) ks ≡ false
    → find key_hash k.secret_hash (ks ++ (k ∷ [])) ≡ some k
unfolding find
find-append_new k [] fresh = ground arith
find-append_new k (x ∷ ks) fresh = elim (Bool-cases (x.secret_hash == k.secret_hash)) [
  | inl same ↦ absurd (ground (arith, fresh, same))
  | inr other ↦ rw other (find-append_new k ks (ground (arith, fresh, other)))
]

-- What a key is made of.
generate_api_key-eq-some :
    (sha256 : List ℕ → ℕ) (buf : List ℕ) (g : GeneratedApiKey)
    → generate_api_key sha256 buf ≡ some g
    → (cs : List ℕ) × (g.secret ≡ 122 ∷ cs) × (g.hash ≡ sha256 (122 ∷ cs))
unfolding generate_api_key
generate_api_key-eq-some sha256 buf g e = elim (Option-cases (random_base62 buf)) [
  | inl gone ↦ absurd (ground (arith, e, gone))
  | inr (secret, there) ↦
      let made : generated sha256 (api_key_prefix ++ secret) ≡ g = ground (arith, e, there) in
      (
        109 ∷ 107 ∷ 95 ∷ secret,
        sym (ap (λ (x : GeneratedApiKey). x.secret) made),
        sym (ap (λ (x : GeneratedApiKey). x.hash) made),
      )
]

-- The transaction of an issue that succeeds.
create_body-eq-ok :
    (down : IssueCall → Bool) (actor : ℕ) (k : ApiKeyRow) (secret : List ℕ) (s s' : Accounts)
    (c : CreatedApiKey)
    → create_body down actor k secret s ≡ ok (s', c)
    → (any (λ (x : ApiKeyRow). x.secret_hash == k.secret_hash) s.keys ≡ false)
      × (c.key ≡ k)
      × (c.secret ≡ secret)
      × (s'.keys ≡ s.keys ++ (k ∷ []))
      × (s'.instances ≡ s.instances)
      × (s'.tenants ≡ s.tenants)
unfolding create_api_key
create_body-eq-ok down actor k secret s s' c e = (
  ground (arith, e),
  ground (arith, e),
  ground (arith, e),
  ground (arith, e),
  ground (arith, e),
  ground (arith, e),
)

create-eq-ok :
    (sha256 : List ℕ → ℕ) (down : IssueCall → Bool) (buf : List ℕ) (now id tenant instance : ℕ)
    (raw : String) (actor : ℕ) (s s' : Accounts) (c : CreatedApiKey)
    → create down sha256 (some buf) now id tenant instance raw actor s ≡ (s', ok c)
    → (i : InstanceRow) × (g : GeneratedApiKey) × (get_instance_by_id_and_tenant instance tenant s
        ≡ some i)
      × (generate_api_key sha256 buf ≡ some g)
      × (create_body down actor (new_key now id instance (label_of (trim_space raw)) g) g.secret s
          ≡ ok (s', c))
unfolding create
create-eq-ok sha256 down buf now id tenant instance raw actor s s' c e =
    elim (Option-cases (get_instance_by_id_and_tenant instance tenant s)) [
      | inl gone ↦ absurd (ground (arith, e, gone))
      | inr (i, there) ↦ elim (Option-cases (generate_api_key sha256 buf)) [
        | inl none_ ↦ absurd (ground (arith, e, there, none_))
        | inr (g, made) ↦ (
          i,
          g,
          there,
          made,
          transaction-eq-ok (λ call. down (IssueCall.tx call))
              (create_body down actor (new_key now id instance (label_of (trim_space raw)) g)
                g.secret)
              s s' c (ground (arith, e, there, made)),
        )
      ]
    ]

owned-eq-some :
    (instance tenant : ℕ) (s : Accounts) (i : InstanceRow)
    → get_instance_by_id_and_tenant instance tenant s ≡ some i
    → (get_instance instance s.instances ≡ some i) × (i.tenant_id ≡ tenant)
owned-eq-some instance tenant s i e = elim (Option-cases (get_instance instance s.instances)) [
  | inl gone ↦ absurd (ground (arith, e, gone))
  | inr (x, there) ↦ (ground (arith, e, there), ground (arith, e, there))
]

-- When a key is issued for an instance of an active tenant, the secret that is handed out opens that
-- instance on the very next request, as the key that was stored, and on the path of any other instance
-- it is answered that there is none.
pub create-authenticate :
    (sha256 : List ℕ → ℕ) (down : IssueCall → Bool) (buf : List ℕ) (now id tenant instance : ℕ)
    (raw : String) (actor : ℕ) (s s' : Accounts) (c : CreatedApiKey) (t : TenantRow)
    (later : KeyCall → Bool) (url : Option ℕ)
    → create down sha256 (some buf) now id tenant instance raw actor s ≡ (s', ok c)
    → get_tenant tenant s.tenants ≡ some t
    → t.status ≡ TenantStatus.active
    → later KeyCall.looks_up ≡ false
    → (i : InstanceRow) × (get_instance_by_id_and_tenant instance tenant s ≡ some i)
      × (authenticate sha256 later c.secret url s' ≡ (
          if is_addressed url instance
          then ok (operator (record { key = c.key; instance = i; tenant = t }))
          else err err_not_found))
unfolding authenticate get_key_for_auth
create-authenticate sha256 down buf now id tenant instance raw actor s s' c t later url done held
      active reached =
    let (i, g, there, made, body) =
      create-eq-ok sha256 down buf now id tenant instance raw actor s s' c done in
    let (cs, secret, hash) = generate_api_key-eq-some sha256 buf g made in
    let k = new_key now id instance (label_of (trim_space raw)) g in
    let (fresh, key, handed, keys, instances, tenants) =
      create_body-eq-ok down actor k g.secret s s' c body in
    let (stored, of_) = owned-eq-some instance tenant s i there in
    let found : find key_hash (sha256 (122 ∷ cs)) s'.keys ≡ some k =
      rw (sym hash, keys) (find-append_new k s.keys fresh) in
    let owner : get_instance instance s'.instances ≡ some i = rw instances stored in
    let payer : get_tenant i.tenant_id s'.tenants ≡ some t = rw (tenants, of_) held in
    (
      i,
      there,
      rw (handed, secret, reached, found, owner, join_tenant, payer, active, key)
          (elim (Bool-cases (is_addressed url instance)) [
            | inl here ↦ rw here refl
            | inr elsewhere ↦ rw elsewhere refl
          ]),
    )
