-- ===== src/Access/Revocation.antt =====
-- The operational keys: what a revocation does to the next request, and whom the middleware admits.
use zappermeow.Base.{
  ℕ, Bool, true, false, List, [], ◌∷◌, Option, none, some, Result, ok, err, ◌==◌, ◌≡◌, refl, sym,
  ap, subst, ◌∙◌, inl, inr, arith, if◌then◌else◌, select, In, Bool-cases, Option-cases, ==_iff,
}
use zappermeow.Domain.Errors.{Error}
use zappermeow.Store.Instances.{Instances, get_instance}
use zappermeow.Store.Keys.{IsKeyed, In-find}
use zappermeow.Store.Table.{find, touched, find-update, key-find}
use zappermeow.Access.Keys.{
  AuthRow, Operator, KeyCall, is_revocable, as_revoked, revoke_api_key, revoked_row, revoke, first,
  join, join_tenant, get_key_for_auth, admit, admit_found, operator, is_addressed, invalid,
  authenticate,
}
use zappermeow.Store.Accounts.{
  ApiKeyRow, TenantRow, Accounts, key_id, key_hash, ApiKeyStatus, TenantStatus, tenant_key,
}

-- Whether the key found is the one named.
abbrev is_key : ℕ → Option ApiKeyRow → Bool
is_key id none = false
is_key id (some k) = k.id == id

-- A row that the statement returns stands in the table and meets the conditions.
revoked_row-In :
    (p : ApiKeyRow → Bool) (ks : List ApiKeyRow) (k : ApiKeyRow)
    → first (select p ks) ≡ some k
    → In k ks × (p k ≡ true)
revoked_row-In p [] k e = cc
revoked_row-In p (x ∷ ks) k e = elim (Bool-cases (p x)) [
  | inl passes ↦
      let same : x ≡ k = ground (arith, passes, e) in (inl (sym same), ap p (sym same) ∙ passes)
  | inr fails ↦ let (i, q) = revoked_row-In p ks k (rw fails at e) in (inr i, q)
]

-- A revoked key is refused, joined or not.
refused :
    (is : Instances) (ts : List TenantRow) (url : Option ℕ) (k : ApiKeyRow)
    → k.status ≡ ApiKeyStatus.revoked
    → admit_found url (join is ts (some k)) ≡ err invalid
refused is ts url k e = ground (arith, e)

-- A revocation that succeeded found a row, and changed the keys alone.
revoke-eq-ok :
    (down : KeyCall → Bool) (now tenant instance id actor : ℕ) (s s' : Accounts)
    → revoke down now tenant instance id actor s ≡ (s', ok tt)
    → (k : ApiKeyRow) × (revoked_row id instance tenant s ≡ some k)
      × (s'.keys ≡ revoke_api_key now id instance tenant s)
      × (s'.instances ≡ s.instances)
      × (s'.tenants ≡ s.tenants)
unfolding revoke
revoke-eq-ok down now tenant instance id actor s s' e =
    elim (Option-cases (revoked_row id instance tenant s)) [
      | inl none_there ↦ absurd (ground (arith, e, none_there))
      | inr (k, there) ↦
          (k, there, ground (arith, e, there), ground (arith, e, there), ground (arith, e, there))
    ]

-- What the middleware makes of the row found, when the row named is the only one that changes.
admit_found-touched :
    (now id instance tenant : ℕ) (is : Instances) (ts : List TenantRow) (url : Option ℕ)
    (o : Option ApiKeyRow)
    → ((x : ApiKeyRow)
        → o ≡ some x
        → (x.id == id) ≡ true
        → is_revocable id instance tenant is x ≡ true)
    → admit_found url (join is ts (touched (is_revocable id instance tenant is) (as_revoked now) o))
      ≡ (if is_key id o then err invalid else admit_found url (join is ts o))
admit_found-touched now id instance tenant is ts url none only = refl
admit_found-touched now id instance tenant is ts url (some x) only =
    elim (Bool-cases (x.id == id)) [
      | inl same ↦ rw (only x refl same, same) (refused is ts url (as_revoked now x) refl)
      | inr other ↦ rw other refl
    ]

-- One identifier, one row.
keyed_once :
    (id : ℕ) (ks : List ApiKeyRow) (x k : ApiKeyRow)
    → IsKeyed key_id ks
    → In x ks
    → In k ks
    → (x.id == id) ≡ true
    → (k.id == id) ≡ true
    → x ≡ k
keyed_once id ks x k keyed j i same named =
    let ids : x.id ≡ k.id = (==_iff x.id id).0 same ∙ sym ((==_iff k.id id).0 named) in
    let rows : some x ≡ some k = sym (keyed x j) ∙ ap (λ n. find key_id n ks) ids ∙ keyed k i in cc

-- A lookup that fails is answered as an unknown key, before and after.
unreached :
    (x y e : Result Error Operator) (fails named : Bool)
    → x ≡ (if named then e else y)
    → (if fails then e else x) ≡ (if named then e else if fails then e else y)
unreached x y e true true h = refl
unreached x y e true false h = refl
unreached x y e false named h = h

-- Where an identifier names one key: when a revocation succeeds, the very next request with a token of
-- that key is refused as with an unknown key, and one with any other token that is not empty is answered
-- as before.
pub revoke-authenticate :
    (sha256 : List ℕ → ℕ) (down later : KeyCall → Bool) (now tenant instance id actor : ℕ)
    (s s' : Accounts) (c : ℕ) (cs : List ℕ) (url : Option ℕ)
    → IsKeyed key_id s.keys
    → revoke down now tenant instance id actor s ≡ (s', ok tt)
    → authenticate sha256 later (c ∷ cs) url s' ≡ (
        if is_key id (find key_hash (sha256 (c ∷ cs)) s.keys)
        then err invalid
        else authenticate sha256 later (c ∷ cs) url s)
unfolding authenticate get_key_for_auth revoke_api_key revoked_row
revoke-authenticate sha256 down later now tenant instance id actor s s' c cs url keyed done =
    let (k, there, keys, instances, tenants) =
      revoke-eq-ok down now tenant instance id actor s s' done in
    let hash = sha256 (c ∷ cs) in
    let p = is_revocable id instance tenant s.instances in
    let (i, meets) = revoked_row-In p s.keys k there in
    let one : (x : ApiKeyRow)
        → find key_hash hash s.keys ≡ some x
        → (x.id == id) ≡ true
        → p x ≡ true =
      λ x e same.
        ap p (
          keyed_once id s.keys x k keyed (In-find key_hash hash s.keys x e) i same
            (ground (arith, meets)))
        ∙ meets in
    let step : admit_found url (get_key_for_auth hash s') ≡ (
        if is_key id (find key_hash hash s.keys)
        then err invalid
        else admit_found url (get_key_for_auth hash s)) =
      rw (keys, instances, tenants, find-update key_hash p (as_revoked now) (λ x. refl) hash s.keys)
        (admit_found-touched now id instance tenant s.instances s.tenants url
          (find key_hash hash s.keys) one) in
    unreached _ _ _ (later KeyCall.looks_up) (is_key id (find key_hash hash s.keys)) step

abbrev IsJoined : Instances → List TenantRow → ApiKeyRow → AuthRow → Type 0
IsJoined is ts k r =
    (some k ≡ some r.key)
    × (get_instance r.key.instance_id is ≡ some r.instance)
    × (find tenant_key r.instance.tenant_id ts ≡ some r.tenant)

-- What the statement joins, row by row.
join-eq-some :
    (is : Instances) (ts : List TenantRow) (o : Option ApiKeyRow) (r : AuthRow)
    → join is ts o ≡ some r
    → (o ≡ some r.key)
      × (get_instance r.key.instance_id is ≡ some r.instance)
      × (find tenant_key r.instance.tenant_id ts ≡ some r.tenant)
join-eq-some is ts none r e = cc
join-eq-some is ts (some k) r e = elim (Option-cases (get_instance k.instance_id is)) [
  | inl gone ↦ absurd (ground (arith, e, gone))
  | inr (i, there) ↦ elim (Option-cases (find tenant_key i.tenant_id ts)) [
    | inl gone ↦ absurd (ground (arith, e, gone, there))
    | inr (t, held) ↦
        let found : some (record { key = k; instance = i; tenant = t }) ≡ some r =
          sym (rw (there, join_tenant, held) refl) ∙ e in
        let same : record { key = k; instance = i; tenant = t } ≡ r = cc in
        subst (IsJoined is ts k) same (refl, there, held)
  ]
]

addressed : (url : Option ℕ) (n : ℕ) → is_addressed url n ≡ true → url ≡ some n
addressed none n h = cc
addressed (some u) n h = ap some ((==_iff u n).0 h)

admit-eq-ok :
    (url : Option ℕ) (r : AuthRow) (o : Operator)
    → admit url r ≡ ok o
    → (r.key.status ≡ ApiKeyStatus.active)
      × (url ≡ some r.key.instance_id)
      × (r.tenant.status ≡ TenantStatus.active)
      × (operator r ≡ o)
admit-eq-ok url r o e = elim (Bool-cases (is_addressed url r.key.instance_id)) [
  | inl same ↦ (
    ground (arith, e),
    addressed url r.key.instance_id same,
    ground (arith, e, same),
    ground (arith, e, same),
  )
  | inr other ↦ absurd (ground (arith, e, other))
]

-- Whom the middleware admits: the key of the token is stored and active, it belongs to the instance in
-- the path, the tenant of that instance is active, and the principal is these three.
pub authenticate-eq-ok :
    (sha256 : List ℕ → ℕ) (down : KeyCall → Bool) (token : List ℕ) (url : Option ℕ) (s : Accounts)
    (o : Operator)
    → authenticate sha256 down token url s ≡ ok o
    → (r : AuthRow) × (find key_hash (sha256 token) s.keys ≡ some r.key)
      × (r.key.status ≡ ApiKeyStatus.active)
      × (get_instance r.key.instance_id s.instances ≡ some r.instance)
      × (url ≡ some r.key.instance_id)
      × (find tenant_key r.instance.tenant_id s.tenants ≡ some r.tenant)
      × (r.tenant.status ≡ TenantStatus.active)
      × (o.key_id ≡ r.key.id)
      × (o.instance_id ≡ r.key.instance_id)
      × (o.tenant_id ≡ r.instance.tenant_id)
unfolding authenticate get_key_for_auth
authenticate-eq-ok sha256 down [] url s o e = cc
authenticate-eq-ok sha256 down (c ∷ cs) url s o e =
    let hash = sha256 (c ∷ cs) in
    elim (Option-cases (get_key_for_auth hash s)) [
      | inl gone ↦ absurd (ground (arith, e, gone))
      | inr (r, there) ↦
          let (live, here, open_, made) = admit-eq-ok url r o (ground (arith, e, there)) in
          let (stored, owner, owned) =
            join-eq-some s.instances s.tenants (find key_hash hash s.keys) r there in
          (
            r,
            stored,
            live,
            owner,
            here,
            owned,
            open_,
            ap (λ (x : Operator). x.key_id) (sym made),
            ap (λ (x : Operator). x.instance_id) (sym made),
            ap (λ (x : Operator). x.tenant_id) (sym made)
                ∙ key-find tenant_key r.instance.tenant_id s.tenants r.tenant owned,
          )
    ]
