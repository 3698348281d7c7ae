-- ===== src/Identity/Attempts.antt =====
-- Simultaneous attempts to log in to one account (internal/domain/services/auth.go): an attempt reads the
-- account, and later goes on with what it read; no transaction holds the two together.
use zappermeow.Base.{
  ℕ, zero, suc, ◌+◌, ◌≤◌, ◌<◌, Bool, true, false, leb, List, [], ◌∷◌, Option, none, some, String,
  ◌≡◌, refl, ap, ◌∙◌, ==_iff, arith, if◌then◌else◌, ◌==◌, same_text, length,
}
use zappermeow.Domain.Validate.{normalize_email}
use zappermeow.Store.Accounts.{Accounts, UserRow, user_key, get_user}
use zappermeow.Store.Table.{update, touched, find-update-some}
use zappermeow.Store.Users.{
  UserJoined, get_user_credential_by_email, by_email, on_user, with_failure, register_failed_login,
}
use zappermeow.Identity.Tokens.{Jwt, is_locked}
use zappermeow.Identity.Login.{LoginCall, Policy, found}

by_email-update :
    (lower : String → String) (email : String) (p : UserRow → Bool) (f : UserRow → UserRow)
    → ((u : UserRow) → (f u).email ≡ u.email)
    → (us : List UserRow)
    → by_email lower email (update p f us) ≡ touched p f (by_email lower email us)
unfolding by_email update
by_email-update lower email p f keeps [] = refl
by_email-update lower email p f keeps (u ∷ us) = ground (
  arith,
  ap (λ e. same_text (lower e) (lower email)) (keeps u),
  by_email-update lower email p f keeps us,
)

-- The account that an address names, in the table and by its identifier.
abbrev pub Holds : (String → String) → String → List UserRow → UserRow → Type 0
Holds lower email us u = (by_email lower email us ≡ some u) × (get_user u.id us ≡ some u)

pub register_failed_login-Holds :
    (lower : String → String) (email : String) (us : List UserRow) (u : UserRow)
    (now max_failures lock_window : ℕ)
    → Holds lower email us u
    → Holds lower email
        (register_failed_login now u.id max_failures lock_window us)
        (with_failure now max_failures lock_window u)
unfolding register_failed_login on_user
register_failed_login-Holds lower email us u now max_failures lock_window (addressed, stored) =
    let f = with_failure now max_failures lock_window in
    let same : (u.id == u.id) ≡ true = (==_iff u.id u.id).1 refl in
    (
      by_email-update lower email (λ x. x.id == u.id) f (λ x. refl) us
          ∙ ap (touched (λ x. x.id == u.id) f) addressed
          ∙ rw same refl,
      find-update-some user_key (λ x. x.id == u.id) f (λ x. refl) u.id us u stored ∙ rw same refl,
    )

-- The account is locked at least until an instant.
abbrev pub is_shut : ℕ → UserRow → Bool
is_shut until u = elim u.locked_until [ none ↦ false | some l ↦ leb until l ]

-- What simultaneous attempts do, in the order in which the database sees it: one reads the account, or
-- the one that stands at an index among those that have read goes on, at an instant, with its password.
pub data Turn : Type 0 where
  begins : Turn
  goes_on : ℕ → ℕ → String → Turn

-- Each goes on within the window from `start`, with a password that does not match the hash.
abbrev pub IsProbe : Policy → (String → String → Option Bool) → ℕ → String → List Turn → Type 0
IsProbe p verify start hash [] = Unit
IsProbe p verify start hash (begins ∷ h) = IsProbe p verify start hash h
IsProbe p verify start hash (goes_on k now password ∷ h) =
    ((start ≤ now) × (now < start + p.lock_window) × (verify hash password ≡ some false))
    × IsProbe p verify start hash h

-- The element at an index, and the others.
abbrev pub pick : {A : Type 0} → ℕ → List A → Option (A × List A)
pick k [] = none
pick zero (x ∷ xs) = some (x, xs)
pick (suc k) (x ∷ xs) = elim (pick k xs) [ none ↦ none | some (y, ys) ↦ some (y, x ∷ ys) ]

-- The tables, and the rows that the attempts under way have read.
abbrev pub Desk : Type 0
Desk = Accounts × List (Option UserJoined)

-- Whether an attempt compares the password: it read an account that is not locked.
abbrev pub compares : ℕ → Option UserJoined → ℕ
compares now none = 0
compares now (some r) = if is_locked now r.user then 0 else 1

abbrev pub picked_compares : ℕ → Option (Option UserJoined × List (Option UserJoined)) → ℕ
picked_compares now none = 0
picked_compares now (some (r, rest)) = compares now r

module _ (p : Policy) (down : LoginCall → Bool) (j : Jwt) (lower : String → String)
    (verify : String → String → Option Bool) (email : String) where
  abbrev pub went_on : ℕ → String → Accounts → List (Option UserJoined) → Option UserJoined → Desk
  went_on now password s rest r = (
    (found p down now j lower verify (record { email = email; password = password }) r s).0,
    rest,
  )

  -- An index at which none stands does nothing.
  abbrev pub picked_turn :
      ℕ
      → String
      → Accounts
      → List (Option UserJoined)
      → Option (Option UserJoined × List (Option UserJoined))
      → Desk
  picked_turn now password s reads none = (s, reads)
  picked_turn now password s reads (some (r, rest)) = went_on now password s rest r

  abbrev pub take_turn : Turn → Desk → Desk
  take_turn begins (s, reads) =
      (s, get_user_credential_by_email lower (normalize_email lower email) s ∷ reads)
  take_turn (goes_on k now password) (s, reads) = picked_turn now password s reads (pick k reads)

  abbrev compared_by : Turn → Desk → ℕ
  compared_by begins d = 0
  compared_by (goes_on k now password) (s, reads) = picked_compares now (pick k reads)

  -- How many passwords a history of attempts compares, on the tables as they change.
  abbrev pub guesses : List Turn → Desk → ℕ
  guesses [] d = 0
  guesses (t ∷ h) d = compared_by t d + guesses h (take_turn t d)

  -- Never more than `n` attempts are under way.
  abbrev pub AtMost : ℕ → List Turn → Desk → Type 0
  AtMost n [] d = Unit
  AtMost n (t ∷ h) d = (length (take_turn t d).1 ≤ n) × AtMost n h (take_turn t d)
