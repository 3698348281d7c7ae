-- ===== src/Access/Scope.antt =====
-- What a principal of a session's routes can reach (internal/api/middleware/auth_connection.go).
use zappermeow.Base.{
  ℕ, Bool, true, List, [], ◌∷◌, Option, none, some, ok, ◌≡◌, refl, ap, sym, ◌∙◌, inl, inr, arith,
  ◌==◌, ==_iff, Option-cases, Result-cases,
}
use zappermeow.Access.Keys as Keys
use zappermeow.Access.Keys.{KeyCall, Operator}
use zappermeow.Access.Connection.{ConnectionPrincipal, authenticate, scoped}
use zappermeow.Access.Revocation.{authenticate-eq-ok}
use zappermeow.Identity.Gate.{Admin, admit_user, tenant_route}
use zappermeow.Identity.Gate as Gate
use zappermeow.Identity.Login.{is_active_tenant, tenant_status_of}
use zappermeow.Identity.Tokens.{Jwt, parse}
use zappermeow.Store.Accounts.{Accounts, get_user}
use zappermeow.Store.Instances.{InstanceRow, instance_id, get_instance}
use zappermeow.Store.Table.{key-find}
use zappermeow.Store.Users.{joined_status}

-- Whom a tenant's route admits belongs to an active tenant.
tenant_route-active :
    (j : Jwt) (now : ℕ) (down : Bool) (bearer : Option j.Token) (s : Accounts) (a : Admin)
    → tenant_route j now down bearer s ≡ ok a
    → is_active_tenant (tenant_status_of (joined_status s.tenants a.user.tenant_id)) ≡ true
unfolding tenant_route Gate.authenticate admit_user
tenant_route-active j now down none s a e = cc
tenant_route-active j now down (some raw) s a e = elim (Option-cases (parse j now raw)) [
  | inl unread ↦ absurd (ground (arith, e, unread))
  | inr (c, read) ↦ elim (Option-cases (get_user c.subject s.users)) [
    | inl gone ↦ absurd (ground (arith, e, read, gone))
    | inr (u, there) ↦
        let live : is_active_tenant (tenant_status_of (joined_status s.tenants u.tenant_id))
            ≡ true =
          ground (arith, e, read, there) in
        let same : a.user ≡ u = ground (arith, e, read, there) in rw same live
  ]
]

-- The instance that the lookup under a tenant finds.
scoped-eq-ok :
    (down : Bool) (url : Option ℕ) (tenant : ℕ) (s : Accounts) (p : ConnectionPrincipal)
    → scoped down url tenant s ≡ ok p
    → (i : InstanceRow) × (url ≡ some p.instance_id)
      × (get_instance p.instance_id s.instances ≡ some i)
      × (i.tenant_id ≡ tenant)
      × (p.tenant_id ≡ tenant)
scoped-eq-ok down none tenant s p e = cc
scoped-eq-ok down (some id) tenant s p e = elim (Option-cases (get_instance id s.instances)) [
  | inl gone ↦ absurd (ground (arith, e, gone))
  | inr (i, there) ↦
      let of_ : (i.tenant_id == tenant) ≡ true = ground (arith, e, there) in
      let named : i.id ≡ id = key-find instance_id id s.instances i there in
      let made : p.instance_id ≡ i.id = ground (arith, e, there) in
      let owner : p.tenant_id ≡ i.tenant_id = ground (arith, e, there) in
      let tenant_ : i.tenant_id ≡ tenant = (==_iff i.tenant_id tenant).0 of_ in
      (i, ap some (sym (made ∙ named)), rw (made ∙ named) there, tenant_, owner ∙ tenant_)
]

-- Whichever credential opened a route of a session: the principal's instance is the one in the path, it
-- is stored and belongs to the principal's tenant, and that tenant is active.
pub authenticate-scoped :
    (j : Jwt) (now : ℕ) (sha256 : List ℕ → ℕ) (down_key : KeyCall → Bool) (down down_user : Bool)
    (token : List ℕ) (bearer : Option j.Token) (url : Option ℕ) (s : Accounts)
    (p : ConnectionPrincipal)
    → authenticate j now sha256 down_key down down_user token bearer url s ≡ ok p
    → (i : InstanceRow) × (url ≡ some p.instance_id)
      × (get_instance p.instance_id s.instances ≡ some i)
      × (i.tenant_id ≡ p.tenant_id)
      × (is_active_tenant (tenant_status_of (joined_status s.tenants (some p.tenant_id))) ≡ true)
unfolding authenticate
authenticate-scoped j now sha256 down_key down down_user (c ∷ cs) bearer url s p e =
    elim (Result-cases (Keys.authenticate sha256 down_key (c ∷ cs) url s)) [
      | inr (f, refused) ↦ absurd (ground (arith, e, refused))
      | inl (o, passed) ↦
          let (r, stored, live, owned, here, held, open_, key, instance, tenant) =
            authenticate-eq-ok sha256 down_key (c ∷ cs) url s o passed in
          let p_instance : p.instance_id ≡ r.key.instance_id =
            ground (arith, e, passed, instance) in
          let p_tenant : p.tenant_id ≡ r.instance.tenant_id = ground (arith, e, passed, tenant) in
          (
            r.instance,
            here ∙ ap some (sym p_instance),
            rw p_instance owned,
            sym p_tenant,
            rw (p_tenant, held, open_) refl,
          )
    ]
authenticate-scoped j now sha256 down_key down down_user [] bearer url s p e =
    elim (Result-cases (tenant_route j now down_user bearer s)) [
      | inr (f, refused) ↦ absurd (ground (arith, e, refused))
      | inl (a, passed) ↦ elim (Option-cases a.user.tenant_id) [
        | inl none_ ↦ absurd (ground (arith, e, passed, none_))
        | inr (tenant, some_) ↦
            let live : is_active_tenant (tenant_status_of (joined_status s.tenants (some tenant)))
                ≡ true =
              ap (λ o. is_active_tenant (tenant_status_of (joined_status s.tenants o))) (sym some_)
              ∙ tenant_route-active j now down_user bearer s a passed in
            let (i, here, owned, of_, same) =
              scoped-eq-ok down url tenant s p (ground (arith, e, passed, some_)) in
            (i, here, owned, of_ ∙ sym same, rw same live)
      ]
    ]
