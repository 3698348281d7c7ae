-- ===== src/Identity/Admitted.antt =====
-- Who is let in: by a password (internal/domain/services/auth.go), and then by the token that it gave
-- (internal/api/middleware/auth.go).
use zappermeow.Base.{
  ℕ, ◌+◌, ◌<◌, ◌≤◌, Bool, true, false, ◌||◌, List, String, Option, none, some, ok, err, ◌==◌, ◌≡◌,
  ◌≢◌, ◌↔◌, ◌⊎◌, refl, ap, subst, sym, ◌∙◌, inl, inr, arith, Bool-cases, Option-cases, Result-cases,
}
use zappermeow.Domain.Errors.{err_invalid_credentials}
use zappermeow.Domain.Validate.{normalize_email}
use zappermeow.Store.Accounts.{Accounts, UserRow, TenantStatus, Role, user_key, get_user}
use zappermeow.Store.Table.{find-update-some}
use zappermeow.Store.Users.{
  UserJoined, left_join, joined_status, get_user_credential_by_email, on_user, clear_login_failures,
  without_failures,
}
use zappermeow.Identity.Gate.{authenticate, admit_user, same_audience}
use zappermeow.Identity.Issued.{IsSound, issue-parse, issue-eq-ok}
use zappermeow.Identity.Login.{
  LoginCall, Policy, LoginInput, LoginResult, login, proceed, tenant_status_of, is_active_tenant,
}
use zappermeow.Identity.Attempts.{Holds}
use zappermeow.Identity.Tokens.{
  platform, Jwt, TokenClaims, claims, issue, parse, is_locked, role_audience,
  token_predates_password_change, truncate,
}

-- Whether the attempt is refused for what the caller typed, or for a lock.
abbrev pub is_refused : ℕ → (String → String → Option Bool) → String → Option UserJoined → Bool
is_refused now verify password none = true
is_refused now verify password (some r) =
    is_locked now r.user
    || elim (verify r.user.password_hash password) [ some false ↦ true | _ ↦ false ]

module _ (p : Policy) (down : LoginCall → Bool) (now : ℕ) (j : Jwt) (lower : String → String)
    (verify : String → String → Option Bool) (i : LoginInput) (s : Accounts) where
  abbrev pub credential : Option UserJoined
  credential = get_user_credential_by_email lower (normalize_email lower i.email) s

  proceed-ne_invalid : (r : UserJoined) → (proceed p down now j r s).1 ≢ err err_invalid_credentials
  unfolding proceed
  proceed-ne_invalid r e = ground (arith, e)

  -- When the account can be read: an address that is not known, a locked account and a wrong password
  -- have one and the same answer, and nothing else has it.
  pub login-invalid_credentials :
      down LoginCall.reads ≡ false
      → ((login p down now j lower verify i s).1 ≡ err err_invalid_credentials)
        ↔ (is_refused now verify i.password credential ≡ true)
  unfolding login
  login-invalid_credentials reads = (
    λ h. elim (Option-cases credential) [
      | inl missing ↦ rw missing refl
      | inr (r, there) ↦ rw there (elim (Bool-cases (is_locked now r.user)) [
        | inl locked ↦ rw locked refl
        | inr open_ ↦ rw open_ (ground (arith, h, reads, there, open_, proceed-ne_invalid r))
      ])
    ],
    λ h. ground (arith, reads, h),
  )

  -- A login that succeeds passed every check before the token.
  login-proceeds :
      (s' : Accounts) (res : LoginResult j.Token)
      → login p down now j lower verify i s ≡ (s', ok res)
      → (r : UserJoined) × (credential ≡ some r)
        × (is_locked now r.user ≡ false)
        × (verify r.user.password_hash i.password ≡ some true)
        × (proceed p down now j r s ≡ (s', ok res))
  unfolding login
  login-proceeds s' res e = elim (Option-cases credential) [
    | inl missing ↦ absurd (ground (arith, e, missing))
    | inr (r, there) ↦
        (r, there, ground (arith, e, there), ground (arith, e, there), ground (arith, e, there))
  ]

  proceed-eq-ok :
      (r : UserJoined) (s' : Accounts) (res : LoginResult j.Token)
      → proceed p down now j r s ≡ (s', ok res)
      → (c : TokenClaims) × (is_active_tenant (tenant_status_of r.tenant_status) ≡ true)
        × (s'.users ≡ clear_login_failures r.user.id s.users)
        × (s'.tenants ≡ s.tenants)
        × (issue j p.ttl now r.user.id
              (role_audience r.user.role)
              r.user.tenant_id
              r.user.must_change_password
            ≡ ok (res.access_token, c))
  unfolding proceed
  proceed-eq-ok r s' res e =
      elim (Result-cases (
        issue j p.ttl now r.user.id (role_audience r.user.role) r.user.tenant_id
          r.user.must_change_password)) [
            | inr (reason, failed) ↦ absurd (ground (arith, e, failed))
            | inl ((t, c), made) ↦ (
              c,
              ground (arith, e),
              ground (arith, e, made),
              ground (arith, e, made),
              made ∙ ground (arith, e, made),
            )
          ]

-- A user as the service creates them: a super-admin has no tenant, an admin of a tenant has one.
abbrev IsRegular : UserRow → Type 0
IsRegular u =
    ((u.role ≡ Role.super_admin) × (u.tenant_id ≡ none))
    ⊎ ((u.role ≡ Role.tenant_admin) × ((t : ℕ) × (u.tenant_id ≡ some t)))

platform-alone : (u : UserRow) → IsRegular u → role_audience u.role ≡ platform → u.tenant_id ≡ none
unfolding role_audience
platform-alone u (inl (role, none_)) e = none_
platform-alone u (inr (role, (t, tenant_))) e = cc (ap role_audience role)

-- A token of this instant is not older than a change of the password before it.
fresh :
    (now : ℕ) (u : UserRow)
    → u.password_changed_at ≤ now
    → token_predates_password_change u (truncate now) ≡ false
unfolding token_predates_password_change
fresh now u changed = ground (arith, changed)

same : (t : ℕ) → (t == t) ≡ true
same t = ground arith

-- The middleware on a fresh token of a regular user of an active tenant.
admit_user-fresh :
    (j : Jwt) (ttl now : ℕ) (u : UserRow) (status : Option TenantStatus)
    → IsRegular u
    → u.must_change_password ≡ false
    → u.password_changed_at ≤ now
    → is_active_tenant (tenant_status_of status) ≡ true
    → let c = claims j ttl now u.id (role_audience u.role) u.tenant_id u.must_change_password in
      (same_audience (role_audience u.role) c.audience ≡ true)
      × (admit_user true c (record { user = without_failures u; tenant_status = status })
          ≡ ok (record { user = without_failures u; tenant = tenant_status_of status; claims = c }))
unfolding admit_user token_predates_password_change role_audience
admit_user-fresh j ttl now u status (inl (role, none_)) change changed live =
    (rw role refl, rw (fresh now u changed, change, live, role) refl)
admit_user-fresh j ttl now u status (inr (role, (t, tenant_))) change changed live =
    (rw role refl, rw (fresh now u changed, change, live, role, tenant_, same t) refl)

-- The row after a login.
cleared-Holds :
    (us : List UserRow) (u : UserRow)
    → get_user u.id us ≡ some u
    → get_user u.id (clear_login_failures u.id us) ≡ some (without_failures u)
unfolding clear_login_failures on_user
cleared-Holds us u stored =
    find-update-some user_key (λ x. x.id == u.id) without_failures (λ x. refl) u.id us u stored
    ∙ rw (same u.id) refl

-- With libraries that keep what they document, a login that succeeds for a regular user with no pending
-- change of the password and none dated after this instant: the account was not locked, the hash could
-- be read and the password matched it, and the tenant is active; and until it expires the token opens the
-- route of the user's audience as that user, on the tables that the login leaves.
pub login-authenticate :
    (p : Policy) (down : LoginCall → Bool) (now : ℕ) (j : Jwt) (lower : String → String)
    (verify : String → String → Option Bool) (i : LoginInput) (s s' : Accounts)
    (res : LoginResult j.Token) (u : UserRow) (later : ℕ)
    → IsSound j
    → login p down now j lower verify i s ≡ (s', ok res)
    → Holds lower (normalize_email lower i.email) s.users u
    → IsRegular u
    → u.must_change_password ≡ false
    → u.password_changed_at ≤ now
    → later < truncate (now + p.ttl)
    → (is_locked now u ≡ false)
      × (verify u.password_hash i.password ≡ some true)
      × (is_active_tenant (tenant_status_of (joined_status s.tenants u.tenant_id)) ≡ true)
      × (authenticate j later false (some (role_audience u.role)) true (some res.access_token) s'
          ≡ ok (record {
            user = without_failures u;
            tenant = tenant_status_of (joined_status s.tenants u.tenant_id);
            claims =
                claims j p.ttl now u.id (role_audience u.role) u.tenant_id u.must_change_password;
          }))
unfolding authenticate
login-authenticate p down now j lower verify i s s' res u later sound done (named, stored) regular
      change changed early =
    let (r, there, open_, matched, went) =
      login-proceeds p down now j lower verify i s s' res done in
    let row : ◌≡◌ {A = Option UserJoined}
        (some (record { user = u; tenant_status = joined_status s.tenants u.tenant_id })) (some r) =
      sym (ap (left_join s.tenants) named) ∙ there in
    let joined : record { user = u; tenant_status = joined_status s.tenants u.tenant_id } ≡ r =
      cc in
    let went' = subst (λ x. proceed p down now j x s ≡ (s', ok res)) (sym joined) went in
    let (c, live, users, tenants, made) =
      proceed-eq-ok p down now j lower verify i s
        (record { user = u; tenant_status = joined_status s.tenants u.tenant_id }) s' res went' in
    let c_is =
      (issue-eq-ok j p.ttl now u.id (role_audience u.role) u.tenant_id u.must_change_password
        res.access_token c made).1 in
    let read : parse j later res.access_token ≡ some c =
      issue-parse j p.ttl now u.id (role_audience u.role) u.tenant_id u.must_change_password
        res.access_token c later sound (platform-alone u regular) made (rw c_is early) in
    let (same_, passes) =
      admit_user-fresh j p.ttl now u (joined_status s.tenants u.tenant_id) regular change changed
        live in
    (
      ap (λ x. is_locked now x.user) joined ∙ open_,
      ap (λ x. verify x.user.password_hash i.password) joined ∙ matched,
      live,
      rw (read, c_is, same_, users, tenants, cleared-Holds s.users u stored) passes,
    )
