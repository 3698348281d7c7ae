-- ===== src/Identity/Login.antt =====
-- internal/domain/services/auth.go: authenticating a pair of an address and a password, and the durable
-- lockout. One attempt runs at one instant `now`. `verify` is VerifyPassword: `none` is a stored hash
-- that cannot be read.
use zappermeow.Base.{
  ℕ, ◌/◌, Bool, true, false, String, List, [], ◌∷◌, Option, none, some, Result, ok, err,
  if◌then◌else◌,
}
use zappermeow.Domain.Errors.{Error, err_internal, err_invalid_credentials, err_tenant_suspended}
use zappermeow.Domain.Validate.{normalize_email}
use zappermeow.Store.Accounts.{
  Accounts, UserRow, SecurityEvent, EventType, EventResult, TargetType, Meta, TenantStatus,
  get_user,
}
use zappermeow.Store.Users.{
  UserJoined, get_user_credential_by_email, register_failed_login, clear_login_failures,
}
use zappermeow.Identity.Tokens.{
  Audience, Jwt, TokenClaims, audience_text, role_audience, issue, is_locked, second,
}

pub data LoginCall : Type 0 where
  reads registers clears : LoginCall
  records : EventType → LoginCall

pub record Policy : Type 0 where
  pub max_failures : ℕ
  pub lock_window : ℕ
  pub ttl : ℕ

pub record LoginInput : Type 0 where
  pub email : String
  pub password : String

pub record LoginResult (Token : Type 0) : Type 0 where
  pub access_token : Token
  pub expires_in : ℕ
  pub audience : Audience
  pub must_change_password : Bool

-- A super-admin has no tenant, which counts as active.
abbrev pub tenant_status_of : Option TenantStatus → TenantStatus
tenant_status_of none = TenantStatus.active
tenant_status_of (some s) = s

abbrev pub is_active_tenant : TenantStatus → Bool
is_active_tenant s = elim s [ TenantStatus.active ↦ true | _ ↦ false ]

abbrev failure_of : Option ℕ → String → SecurityEvent
failure_of none reason = record {
  type = EventType.login_failed;
  actor_user_id = none;
  target_type = TargetType.unset;
  target_id = none;
  result = EventResult.failure;
  metadata = ("reason", Meta.text reason) ∷ [];
}
failure_of (some id) reason = record {
  type = EventType.login_failed;
  actor_user_id = some id;
  target_type = TargetType.user;
  target_id = some id;
  result = EventResult.failure;
  metadata = ("reason", Meta.text reason) ∷ [];
}

-- An event of the user on itself.
abbrev pub own_event : EventType → EventResult → ℕ → List (String × Meta) → SecurityEvent
own_event type result id metadata = record {
  type = type;
  actor_user_id = some id;
  target_type = TargetType.user;
  target_id = some id;
  result = result;
  metadata = metadata;
}

-- Whether the row that the statement returns is locked; no row is an error of the statement.
abbrev crossed : ℕ → Option UserRow → Bool
crossed now none = false
crossed now (some u) = is_locked now u

abbrev lock_end : Option UserRow → ℕ
lock_end none = 0
lock_end (some u) = elim u.locked_until [ none ↦ 0 | some t ↦ t ]

module _ (p : Policy) (down : LoginCall → Bool) (now : ℕ) where
  -- A failure to record is swallowed.
  abbrev pub record_event : SecurityEvent → Accounts → Accounts
  record_event e s = record s {
    events = if down (LoginCall.records e.type) then s.events else e ∷ s.events;
  }

  abbrev record_login_failure : Option ℕ → String → Accounts → Accounts
  record_login_failure actor reason = record_event (failure_of actor reason)

  abbrev locked_event : UserRow → Accounts → SecurityEvent
  locked_event u s = own_event EventType.account_locked EventResult.denied u.id (
      ("locked_until", Meta.number (lock_end (get_user u.id s.users)))
      ∷ ("max_failures", Meta.number p.max_failures)
      ∷ ("window_second", Meta.number (p.lock_window / second))
      ∷ [])

  unfoldable pub register_failed_attempt : UserRow → Accounts → Accounts
  register_failed_attempt u s =
      if down LoginCall.registers
      then record_login_failure (some u.id) "bad_password" s
      else let counted = record s {
        users = register_failed_login now u.id p.max_failures p.lock_window s.users;
      } in
        let failed = record_login_failure (some u.id) "bad_password" counted in
        if crossed now (get_user u.id counted.users)
        then record_event (locked_event u counted) failed
        else failed

  abbrev unlocked_event : UserRow → SecurityEvent
  unlocked_event u =
      own_event EventType.account_unlocked EventResult.success u.id
        (("reason", Meta.text "lockout_expired") ∷ [])

  abbrev suspended_event : UserRow → SecurityEvent
  suspended_event u =
      own_event EventType.login_failed EventResult.denied u.id
        (("reason", Meta.text "tenant_suspended") ∷ [])

  abbrev succeeded_event : UserRow → TokenClaims → SecurityEvent
  succeeded_event u c =
      own_event EventType.login_succeeded EventResult.success u.id
        (("audience", Meta.text (audience_text c.audience)) ∷ [])

  -- A lockout that has expired is reported on the first login after it.
  abbrev cleared : UserRow → Accounts → Accounts
  cleared u s =
      let fresh = record s { users = clear_login_failures u.id s.users } in
      elim u.locked_until [ none ↦ fresh | some t ↦ record_event (unlocked_event u) fresh ]

  module _ (j : Jwt) where
    abbrev minted :
        UserRow
        → Accounts
        → Result String (j.Token × TokenClaims)
        → Accounts × Result Error (LoginResult j.Token)
    minted u s (err reason) = (s, err (err_internal reason))
    minted u s (ok (t, c)) = (
      record_event (succeeded_event u c) s,
      ok (record {
        access_token = t;
        expires_in = p.ttl / second;
        audience = c.audience;
        must_change_password = u.must_change_password;
      }),
    )

    -- What follows a password that matches.
    unfoldable pub proceed : UserJoined → Accounts → Accounts × Result Error (LoginResult j.Token)
    proceed r s =
        let u = r.user in
        if is_active_tenant (tenant_status_of r.tenant_status)
        then if down LoginCall.clears
          then (s, err (err_internal "clear login failures"))
          else minted u (cleared u s)
              (issue j p.ttl now u.id (role_audience u.role) u.tenant_id u.must_change_password)
        else (record_event (suspended_event u) s, err err_tenant_suspended)

    abbrev checked :
        UserJoined → Option Bool → Accounts → Accounts × Result Error (LoginResult j.Token)
    checked r none s = (s, err (err_internal "verify password"))
    checked r (some false) s = (register_failed_attempt r.user s, err err_invalid_credentials)
    checked r (some true) s = proceed r s

    module _ (lower : String → String) (verify : String → String → Option Bool) where
      -- What an attempt does with the row that it read: the tables may have changed since.
      abbrev pub found :
          LoginInput → Option UserJoined → Accounts → Accounts × Result Error (LoginResult j.Token)
      found i none s = (record_login_failure none "unknown_email" s, err err_invalid_credentials)
      found i (some r) s =
          if is_locked now r.user
          then (
            record_login_failure (some r.user.id) "account_locked" s,
            err err_invalid_credentials,
          )
          else checked r (verify r.user.password_hash i.password) s

      -- The address is trimmed and folded first. This is an attempt that no other interrupts; no
      -- transaction makes it one.
      unfoldable pub login : LoginInput → Accounts → Accounts × Result Error (LoginResult j.Token)
      login i s =
          if down LoginCall.reads
          then (s, err (err_internal "get user credential"))
          else found i (get_user_credential_by_email lower (normalize_email lower i.email) s) s
