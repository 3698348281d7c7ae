-- ===== src/Tests/Identity.antt =====
-- Logins and tokens at a concrete account.
use Prim.Native.String.{String}
use text.Mathlib.TextEquality.{eq_iff}
use zappermeow.Base.{
  ℕ, zero, suc, ◌*◌, Bool, true, false, List, [], ◌∷◌, Option, none, some, ok, err, ltb, ◌≡◌, ◌↔◌,
  refl, ap, inl, inr, arith, same_text, is_empty, Bool-cases, if◌then◌else◌,
}
use zappermeow.Domain.Errors.{err_invalid_credentials}
use zappermeow.Domain.Validate.{trim_left, trim_right, trim_space, rune_count, validate_password}
use zappermeow.Identity.Tokens.{is_locked}
use zappermeow.Identity.Admitted.{
  credential, is_refused, login-invalid_credentials, login-authenticate,
}
use zappermeow.Identity.Gate.{authenticate, admit_user}
use zappermeow.Identity.Issued.{IsSound, issue-parse}
use zappermeow.Identity.Attempts.{Turn, begins, goes_on}
use zappermeow.Identity.Login.{
  LoginCall, Policy, LoginInput, LoginResult, login, proceed, register_failed_attempt,
}
use zappermeow.Identity.Passwords.{PasswordCall, change}
use zappermeow.Identity.Tokens.{
  tenant, Jwt, JwtClaims, TokenClaims, audience_of_text, claims, issue, parse, role_audience,
  second, token_predates_password_change, wire,
}
use zappermeow.Store.Accounts.{Accounts, UserRow, Role, TenantStatus}
use zappermeow.Store.Table.{find, update}
use zappermeow.Store.Transaction.{transaction}
use zappermeow.Store.Users.{
  by_email, on_user, register_failed_login, clear_login_failures, update_password, without_failures,
}
use zappermeow.Tests.Access.{desk}

-- A number as a text of that many marks, and one.
abbrev marks : ℕ → String
marks zero = "x"
marks (suc n) = String.◌∷◌ "x" (marks n)

abbrev unmarked : String → Option ℕ
unmarked String.[] = none
unmarked (String.◌∷◌ c s) = some (rune_count s)

-- A token that is its claims.
abbrev verified_at : ℕ → JwtClaims → Option JwtClaims
verified_at now c = elim c.expires_at [
  | none ↦ none
  | some end_ ↦ if ltb now end_ then some c else none
]

abbrev pub tokens : Jwt
tokens = record {
  Token = JwtClaims;
  sign = λ c. some c;
  verify = verified_at;
  uuid_text = marks;
  parse_uuid = unmarked;
}

rune_count-marks : (n : ℕ) → rune_count (marks n) ≡ suc n
unfolding rune_count
rune_count-marks zero = refl
rune_count-marks (suc n) = ap suc (rune_count-marks n)

unmarked-marks : (n : ℕ) → unmarked (marks n) ≡ some n
unfolding rune_count
unmarked-marks zero = refl
unmarked-marks (suc n) = ap some (rune_count-marks n)

marks_shown : (n : ℕ) → is_empty (marks n) ≡ false
marks_shown n = elim (Bool-cases (is_empty (marks n))) [
  | inl empty ↦ cc (ap unmarked ((eq_iff (marks n) "").0 empty), unmarked-marks n)
  | inr shown ↦ shown
]

tokens-IsSound : IsSound tokens
tokens-IsSound = record {
  uuid = unmarked-marks;
  shown = marks_shown;
  verified = λ c t now end_ signed expires early. ground (arith, signed, expires, early);
}

abbrev pub same : String → String
same t = t

-- The hash is the password.
abbrev pub matches : String → String → Option Bool
matches hash password = some (same_text hash password)

abbrev pub policy : Policy
policy = record { max_failures = 5; lock_window = 900 * second; ttl = 3600 * second }

abbrev pub person : UserRow
person = record {
  id = 4;
  name = "Ada";
  email = "ada@acme";
  password_hash = "secret";
  role = Role.tenant_admin;
  tenant_id = some 3;
  must_change_password = false;
  failed_login_count = 0;
  locked_until = none;
  password_changed_at = 0;
}

abbrev pub office : Accounts
office = record desk { users = person ∷ [] }

abbrev pub answering : LoginCall → Bool
answering c = false

abbrev typed : String → LoginInput
typed password = record { email = " ada@acme"; password = password }

statements : Unit {0}
unfolding find update by_email on_user register_failed_login clear_login_failures update_password
    trim_left trim_right trim_space rune_count validate_password login proceed
    register_failed_attempt transaction change issue parse audience_of_text role_audience
    authenticate admit_user token_predates_password_change
statements = tt

login-invalid_credentials_example :
    ((login policy answering 0 tokens same matches (typed "guess") office).1
      ≡ err err_invalid_credentials)
    ↔ (is_refused 0 matches "guess"
          (credential policy answering 0 tokens same matches (typed "guess") office)
        ≡ true)
login-invalid_credentials_example =
    login-invalid_credentials policy answering 0 tokens same matches (typed "guess") office refl

abbrev welcome : LoginResult JwtClaims
welcome = record {
  access_token = wire tokens policy.ttl 0 4 tenant (some 3) false;
  expires_in = 3600;
  audience = tenant;
  must_change_password = false;
}

login-authenticate_example :
    (is_locked 0 person ≡ false)
    × (matches person.password_hash "secret" ≡ some true)
    × (true ≡ true)
    × (authenticate tokens 10 false
          (some tenant)
          true
          (some welcome.access_token)
          (login policy answering 0 tokens same matches (typed "secret") office).0
        ≡ ok (record {
          user = without_failures person;
          tenant = TenantStatus.active;
          claims = claims tokens policy.ttl 0 4 tenant (some 3) false;
        }))
unfolding statements
login-authenticate_example =
    login-authenticate policy answering 0 tokens same matches (typed "secret") office
      (login policy answering 0 tokens same matches (typed "secret") office).0 welcome person 10
      tokens-IsSound refl (refl, refl) (inr (refl, (3, refl))) refl (omega arith) (omega arith)

-- Two attempts read the account before one of them goes on, then a third follows.
abbrev probes : List Turn
probes =
    begins
    ∷ begins
    ∷ goes_on 1 0 "guess"
    ∷ goes_on 0 second "1234"
    ∷ begins
    ∷ goes_on 0 (2 * second) "qwerty"
    ∷ []

abbrev issued : TokenClaims
issued = claims tokens policy.ttl 0 4 tenant (some 3) false

issue-parse_example : parse tokens 10 welcome.access_token ≡ some issued
unfolding statements
issue-parse_example =
    issue-parse tokens policy.ttl 0 4 tenant (some 3) false welcome.access_token issued 10
      tokens-IsSound (λ e. cc) refl (omega arith)

abbrev pub changing : PasswordCall → Bool
changing c = false
