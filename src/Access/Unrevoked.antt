-- ===== src/Access/Unrevoked.antt =====
-- What a new password does to those who watch an instance (internal/api/wsbridge.go with
-- internal/domain/services/passwords.go).
use zappermeow.Base.{
  ℕ, Bool, false, List, Option, none, some, String, Result, ok, err, ◌≡◌, refl, ap, ◌∙◌, inl, inr,
  ◌==◌, Bool-cases, if◌then◌else◌,
}
use zappermeow.Access.ApiKey.{api_key_prefix, has_prefix}
use zappermeow.Access.Keys.{get_key_for_auth}
use zappermeow.Access.Watching.{
  WatchCall, forbidden, authorize, authorize_key, authorize_token, admit_joined, admit_tenant,
  admit_claims, Principal, WatchError,
}
use zappermeow.Identity.Passwords.{PasswordCall, change}
use zappermeow.Identity.Replaced.{change-eq-ok}
use zappermeow.Identity.Tokens.{Audience, platform, tenant, other, Jwt, TokenClaims, parse}
use zappermeow.Store.Accounts.{Accounts, SecurityEvent, UserRow, get_user, user_key}
use zappermeow.Store.Table.{touched, find-update}
use zappermeow.Store.Users.{left_join, update_password, with_password, on_user}

-- The password is not among what the door looks at.
admit_joined-touched :
    (down : WatchCall → Bool) (now id of_tenant instance : ℕ) (hash : String) (us : List UserRow)
    (events : List SecurityEvent) (s : Accounts) (o : Option UserRow)
    → admit_joined down of_tenant instance
        (left_join s.tenants (touched (λ u. u.id == id) (with_password now hash false) o))
        (record s { users = us; events = events })
      ≡ admit_joined down of_tenant instance (left_join s.tenants o) s
admit_joined-touched down now id of_tenant instance hash us events s none = refl
admit_joined-touched down now id of_tenant instance hash us events s (some u) =
    elim (Bool-cases (u.id == id)) [ inl same ↦ rw same refl | inr another ↦ rw another refl ]

-- The tables after a user was given a new password.
abbrev replaced : ℕ → ℕ → String → List SecurityEvent → Accounts → Accounts
replaced now id hash events s = record s {
  users = update_password now id hash false s.users;
  events = events;
}

admit_tenant-replaced :
    (down : WatchCall → Bool) (now id : ℕ) (hash : String) (events : List SecurityEvent)
    (s : Accounts) (subject instance : ℕ) (a : Audience) (of_tenant : Option ℕ)
    → admit_tenant down subject instance a of_tenant (replaced now id hash events s)
      ≡ admit_tenant down subject instance a of_tenant s
unfolding update_password on_user
admit_tenant-replaced down now id hash events s subject instance platform of_tenant = refl
admit_tenant-replaced down now id hash events s subject instance (other a) of_tenant = refl
admit_tenant-replaced down now id hash events s subject instance tenant none = refl
admit_tenant-replaced down now id hash events s subject instance tenant (some of_tenant) =
    ap (λ (r : Result WatchError Principal). if down WatchCall.reads_user then err forbidden else r)
      (ap
          (λ o.
            admit_joined down of_tenant instance (left_join s.tenants o)
              (replaced now id hash events s))
          (find-update user_key (λ u. u.id == id) (with_password now hash false) (λ u. refl) subject
            s.users)
        ∙ admit_joined-touched down now id of_tenant instance hash
            (update_password now id hash false s.users) events s (get_user subject s.users))

admit_claims-replaced :
    (down : WatchCall → Bool) (now id : ℕ) (hash : String) (events : List SecurityEvent)
    (s : Accounts) (instance : ℕ) (o : Option TokenClaims)
    → admit_claims down instance o (replaced now id hash events s) ≡ admit_claims down instance o s
admit_claims-replaced down now id hash events s instance none = refl
admit_claims-replaced down now id hash events s instance (some c) =
    admit_tenant-replaced down now id hash events s c.subject instance c.audience c.tenant_id

authorize-replaced :
    (down : WatchCall → Bool) (j : Jwt) (later : ℕ) (as_token : List ℕ → j.Token)
    (sha256 : List ℕ → ℕ) (credential : List ℕ) (instance now id : ℕ) (hash : String)
    (events : List SecurityEvent) (s : Accounts)
    → authorize down j later as_token sha256 credential instance (replaced now id hash events s)
      ≡ authorize down j later as_token sha256 credential instance s
unfolding authorize authorize_key authorize_token get_key_for_auth
authorize-replaced down j later as_token sha256 credential instance now id hash events s =
    ap
      (λ (r : Result WatchError Principal).
        if has_prefix credential api_key_prefix
        then authorize_key down sha256 credential instance s
        else r)
      (admit_claims-replaced down now id hash events s instance
        (parse j later (as_token credential)))

-- A change of a password that succeeds leaves the access to the events as it was: whatever credential is
-- presented, a token of that user from before the change included, it is answered as before.
pub change-authorize :
    (down : PasswordCall → Bool) (now : ℕ) (hash : String → Option String)
    (verify : String → String → Option Bool) (id : ℕ) (current_password new_password : String)
    (s s' : Accounts) (down_watch : WatchCall → Bool) (j : Jwt) (later : ℕ)
    (as_token : List ℕ → j.Token) (sha256 : List ℕ → ℕ) (credential : List ℕ) (instance : ℕ)
    → change down now hash verify id current_password new_password s ≡ (s', ok tt)
    → authorize down_watch j later as_token sha256 credential instance s'
      ≡ authorize down_watch j later as_token sha256 credential instance s
change-authorize down now hash verify id current_password new_password s s' down_watch j later
      as_token sha256 credential instance done =
    let (new_hash, users, tenants, instances, keys) =
      change-eq-ok down now hash verify id current_password new_password s s' done in
    let same : s' ≡ replaced now id new_hash s'.events s = λ i. record {
      tenants = tenants i;
      users = users i;
      instances = instances i;
      keys = keys i;
      events = s'.events;
    } in
    ap (authorize down_watch j later as_token sha256 credential instance) same
    ∙ authorize-replaced down_watch j later as_token sha256 credential instance now id new_hash
        s'.events s
