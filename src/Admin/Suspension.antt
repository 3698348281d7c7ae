-- ===== src/Admin/Suspension.antt =====
-- What a suspension does to the next request (internal/domain/services/tenants.go with the logins of
-- auth.go, the middleware of internal/api/middleware/auth.go and auth_apikey.go, and the projection on the sessions).
use zappermeow.Base.{
  ℕ, Bool, true, false, List, [], ◌∷◌, Option, some, String, Result, ok, err, ◌≡◌, ◌≢◌, refl, ap,
  sym, ◌∙◌, inl, inr, arith, ==_iff, Option-cases, ◌==◌, In,
}
use zappermeow.Access.Keys as Keys
use zappermeow.Access.Keys.{KeyCall, AuthRow, Operator, get_key_for_auth, join, join_tenant}
use zappermeow.Admin.Projection.{Fleet, plane_of, back, project_status}
use zappermeow.Admin.Recording.{AdminCall}
use zappermeow.Admin.Tenants.{decide_status, projected, set_status}
use zappermeow.Domain.Errors.{Error}
use zappermeow.Lease.{Manager, acquire, not_acquired}
use zappermeow.Service.{Call, apply_tenant_status}
use zappermeow.Service.Tenancy.{suspend-refused}
use zappermeow.Domain.Validate.{normalize_email}
use zappermeow.Identity.Gate.{Admin, authenticate, admit_user}
use zappermeow.Identity.Login.{LoginCall, Policy, LoginInput, LoginResult, login, proceed}
use zappermeow.Identity.Tokens.{Audience, Jwt, TokenClaims, parse}
use zappermeow.Store.Accounts.{
  Accounts, TenantRow, TenantStatus, UserRow, ApiKeyRow, get_tenant, get_user, tenant_key, key_hash,
}
use zappermeow.Store.Instances.{InstanceRow, get_instance, instance_id}
use zappermeow.Store.Keys.{In-find}
use zappermeow.Store.Table.{find, find-update-some, update, key-find}
use zappermeow.Store.Tenants.{set_tenant_status, with_status}
use zappermeow.Store.Transaction.{transaction}
use zappermeow.Store.Users.{by_email, joined_status}

-- A change of the status writes the tenant's row and no other table but the trail.
decide_status-eq-ok :
    (down : AdminCall → Bool) (now id : ℕ) (status : TenantStatus) (actor : ℕ) (s s' : Accounts)
    (t : TenantRow)
    → decide_status down now id status actor s ≡ (s', ok t)
    → (get_tenant id s'.tenants ≡ some t)
      × (t.id ≡ id)
      × (t.status ≡ status)
      × (s'.users ≡ s.users)
      × (s'.instances ≡ s.instances)
      × (s'.keys ≡ s.keys)
unfolding decide_status set_tenant_status transaction
decide_status-eq-ok down now id status actor s s' t e =
    elim (Option-cases (get_tenant id s.tenants)) [
      | inl gone ↦ absurd (ground (arith, e, gone))
      | inr (t0, there) ↦
          let wrote : s'.tenants
              ≡ update (λ (x : TenantRow). x.id == id) (with_status now status) s.tenants =
            ground (arith, e, there) in
          let named : t0.id ≡ id = key-find tenant_key id s.tenants t0 there in
          let same : (t0.id == id) ≡ true = (==_iff t0.id id).1 named in
          let row : with_status now status t0 ≡ t = ground (arith, e, there) in
          (
            rw wrote (
                find-update-some tenant_key (λ (x : TenantRow). x.id == id) (with_status now status)
                  (λ x. refl) id s.tenants t0 there
                ∙ rw same (ap some row)),
            sym (ap (λ (x : TenantRow). x.id) row) ∙ named,
            sym (ap (λ (x : TenantRow). x.status) row),
            ground (arith, e, there),
            ground (arith, e, there),
            ground (arith, e, there),
          )
    ]

projected-eq-ok :
    {X : Type 0} (project : ℕ → TenantStatus → Accounts × X → Accounts × X) (x : X)
    (r : Accounts × Result Error TenantRow) (w : Accounts × X) (t : TenantRow)
    → projected project x r ≡ (w, ok t)
    → (r ≡ (r.0, ok t)) × (project t.id t.status (r.0, x) ≡ w)
projected-eq-ok project x (s, err f) w t e = absurd (ground (arith, e))
projected-eq-ok project x (s, ok t0) w t e = (ground (arith, e), ground (arith, e))

-- The projection of a suspension leaves the accounts as they are, and no session to acquire.
projected-suspended :
    (m : Manager) (down_call : Call → Bool) (now id : ℕ) (t : TenantRow) (s : Accounts)
    (fleet : Fleet) (w' : Accounts × Fleet) (i : InstanceRow) (other : Manager) (later : ℕ)
    → down_call Call.sets_tenant ≡ false
    → t.id ≡ id
    → t.status ≡ TenantStatus.suspended
    → w' ≡ project_status m down_call now t.id t.status (s, fleet)
    → In i s.instances
    → i.tenant_id ≡ id
    → (w'.0 ≡ s) × ((acquire other false later i.id w'.1.0).0 ≡ err not_acquired)
unfolding project_status
projected-suspended m down_call now id t s fleet w' i other later sent t_id status end_ j at_ =
    let p = plane_of (s, fleet) in
    let told : w' ≡ back s (apply_tenant_status m down_call now t.id false p) =
      end_ ∙ rw status refl in
    let (refused, same) =
      suspend-refused m down_call now t.id p i other later sent j (at_ ∙ sym t_id) in
    (rw (told, same) refl, rw told refused)

module _ (s : Accounts) (id : ℕ) (t : TenantRow) where
  -- A user of the tenant, joined with its status.
  joined_suspended :
      (tenant_id : Option ℕ)
      → get_tenant id s.tenants ≡ some t
      → t.status ≡ TenantStatus.suspended
      → tenant_id ≡ some id
      → joined_status s.tenants tenant_id ≡ some TenantStatus.suspended
  joined_suspended tenant_id there status of_ = rw (of_, there) (ap some status)

  login_refused :
      (p : Policy) (down : LoginCall → Bool) (now : ℕ) (j : Jwt) (lower : String → String)
      (verify : String → String → Option Bool) (i : LoginInput) (u : UserRow)
      (res : LoginResult j.Token)
      → by_email lower (normalize_email lower i.email) s.users ≡ some u
      → joined_status s.tenants u.tenant_id ≡ some TenantStatus.suspended
      → (login p down now j lower verify i s).1 ≢ ok res
  unfolding login proceed
  login_refused p down now j lower verify i u res named status e = ground (arith, named, status, e)

  token_refused :
      (j : Jwt) (later : ℕ) (away enforce : Bool) (want : Option Audience) (raw : j.Token)
      (c : TokenClaims) (u : UserRow) (a : Admin)
      → parse j later raw ≡ some c
      → get_user c.subject s.users ≡ some u
      → joined_status s.tenants u.tenant_id ≡ some TenantStatus.suspended
      → authenticate j later away want enforce (some raw) s ≢ ok a
  unfolding authenticate admit_user
  token_refused j later away enforce want raw c u a read stored status e =
      ground (arith, read, stored, status, e)

  key_refused :
      (sha256 : List ℕ → ℕ) (down : KeyCall → Bool) (token : List ℕ) (url : Option ℕ)
      (k : ApiKeyRow) (i : InstanceRow) (o : Operator)
      → find key_hash (sha256 token) s.keys ≡ some k
      → get_instance k.instance_id s.instances ≡ some i
      → get_tenant i.tenant_id s.tenants ≡ some t
      → t.status ≡ TenantStatus.suspended
      → Keys.authenticate sha256 down token url s ≢ ok o
  unfolding Keys.authenticate get_key_for_auth
  key_refused sha256 down [] url k i o found owned held status e = cc
  key_refused sha256 down (c ∷ cs) url k i o found owned held status e =
      ground (arith, found, owned, held, status, e)

-- When a suspension succeeds and its statement on the leases goes through, nothing of the tenant works
-- on the tables that it leaves, at any time and with whatever password, token or header: not the login
-- of a user of the tenant, not a token of such a user, not a key of an instance of the tenant; and no
-- worker acquires the session of the instance. No credential is touched.
pub set_status-suspended :
    (down : AdminCall → Bool) (m : Manager) (down_call : Call → Bool) (now id actor : ℕ)
    (s : Accounts) (fleet : Fleet) (w' : Accounts × Fleet) (t : TenantRow) (u : UserRow)
    (k : ApiKeyRow) (i : InstanceRow) (p : Policy) (down_login : LoginCall → Bool) (later : ℕ)
    (j : Jwt) (lower : String → String) (verify : String → String → Option Bool)
    (input : LoginInput) (away enforce : Bool) (want : Option Audience) (raw : j.Token)
    (c : TokenClaims) (sha256 : List ℕ → ℕ) (down_key : KeyCall → Bool) (token : List ℕ)
    (url : Option ℕ) (other : Manager)
    → down_call Call.sets_tenant ≡ false
    → set_status down now
        (project_status m down_call now)
        id
        TenantStatus.suspended
        actor
        (s, fleet)
      ≡ (w', ok t)
    → u.tenant_id ≡ some id
    → by_email lower (normalize_email lower input.email) s.users ≡ some u
    → parse j later raw ≡ some c
    → get_user c.subject s.users ≡ some u
    → find key_hash (sha256 token) s.keys ≡ some k
    → get_instance k.instance_id s.instances ≡ some i
    → i.tenant_id ≡ id
    → ((res : LoginResult j.Token)
        → (login p down_login later j lower verify input w'.0).1 ≢ ok res)
      × ((a : Admin) → authenticate j later away want enforce (some raw) w'.0 ≢ ok a)
      × ((o : Operator) → Keys.authenticate sha256 down_key token url w'.0 ≢ ok o)
      × ((acquire other false later i.id w'.1.0).0 ≡ err not_acquired)
      × (w'.0.users ≡ s.users)
      × (w'.0.keys ≡ s.keys)
unfolding set_status
set_status-suspended down m down_call now id actor s fleet w' t u k i p down_login later j lower
      verify input away enforce want raw c sha256 down_key token url other sent done of_ named read
      stored found owned at_ =
    let project = project_status m down_call now in
    let decided = decide_status down now id TenantStatus.suspended actor s in
    let (decision, end_) = projected-eq-ok project fleet decided w' t done in
    let (there, t_id, status, users, instances, keys) =
      decide_status-eq-ok down now id TenantStatus.suspended actor s decided.0 t decision in
    let (kept, none_runs) =
      projected-suspended m down_call now id t decided.0 fleet w' i other later sent t_id status
        (sym end_) (rw instances (In-find instance_id k.instance_id s.instances i owned)) at_ in
    let s' = w'.0 in
    let row : get_tenant id s'.tenants ≡ some t = rw kept there in
    let users' : s'.users ≡ s.users = rw kept users in
    let keys' : s'.keys ≡ s.keys = rw kept keys in
    let instances' : s'.instances ≡ s.instances = rw kept instances in
    let joined = joined_suspended s' id t u.tenant_id row status of_ in
    (
      λ res.
          login_refused s' id t p down_login later j lower verify input u res (rw users' named)
            joined,
      λ a. token_refused s' id t j later away enforce want raw c u a read (rw users' stored) joined,
      λ o.
          key_refused s' id t sha256 down_key token url k i o (rw keys' found) (rw instances' owned)
            (rw at_ row) status,
      none_runs,
      users',
      keys',
    )
