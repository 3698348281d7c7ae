-- ===== src/Api/Leaks.antt =====
-- Nothing internal and no credential leaves with a problem document (internal/api/httperr/httperr.go).
use zappermeow.Base.{ℕ, ◌≤◌, ◌<◌, Bool, false, ◌≡◌, ◌≢◌, ◌↔◌, refl, String, some, arith}
use zappermeow.Domain.Errors.{Code, Error, with_cause}
use zappermeow.Api.Problems.{
  domain_error, foreign, from, new_problem, status_for, code_for_status, ErrorDetail, redact,
  is_sensitive,
}

-- The document does not depend on the cause of a domain error, nor on what any other error says; and
-- the status of a domain error lies between 400 and 503.
from-hides_cause :
    (status_text : ℕ → String) (slug : Code → String) (now : ℕ) (e : Error) (cause s t : String)
    → let document = from status_text slug now in
      (document (domain_error (with_cause cause e)) ≡ document (domain_error e))
      × (document (foreign s) ≡ document (foreign t))
      × (400 ≤ (document (domain_error e)).status)
      × ((document (domain_error e)).status < 504)
unfolding from new_problem status_for
from-hides_cause status_text slug now e cause s t = (refl, refl, low e.code, high e.code)
  where
    low : (c : Code) → 400 ≤ status_for c
    low c = ground arith

    high : (c : Code) → status_for c < 504
    high c = ground arith

-- A status that the framework raises by itself is answered with a code of the server's side exactly
-- when it is not one of the client's.
code_for_status-internal : (s : ℕ) → (code_for_status s ≢ Code.internal) ↔ ((400 ≤ s) × (s < 500))
unfolding code_for_status
code_for_status-internal s = ground arith

-- The text in lower case, with its dashes as underscores, contains none of the five words.
abbrev pub IsHarmless : (String → String → Bool) → (String → String) → String → Type 0
IsHarmless contains normal text =
    (contains (normal text) "password" ≡ false)
    × (contains (normal text) "secret" ≡ false)
    × (contains (normal text) "token" ≡ false)
    × (contains (normal text) "api_key" ≡ false)
    × (contains (normal text) "apikey" ≡ false)

is_sensitive-IsHarmless :
    (contains : String → String → Bool) (normal : String → String) (text : String)
    → (is_sensitive contains normal text ≡ false) ↔ IsHarmless contains normal text
unfolding is_sensitive
is_sensitive-IsHarmless contains normal text = ground arith

-- After redaction a detail carries a value exactly when it carried it before and neither the member it
-- stands in nor the value contains "password", "secret", "token", "api_key" or "apikey", in the text in
-- lower case with its dashes as underscores.
pub redact-safe :
    (contains : String → String → Bool) (normal : String → String) (d : ErrorDetail) (v : String)
    → ((redact contains normal d).value ≡ some v)
      ↔ ((d.value ≡ some v) × IsHarmless contains normal d.location × IsHarmless contains normal v)
unfolding redact
redact-safe contains normal d v =
    let (to_member, from_member) = is_sensitive-IsHarmless contains normal d.location in
    let (to_value, from_value) = is_sensitive-IsHarmless contains normal v in
    (
      λ e. (ground (arith, e), to_member (ground (arith, e)), to_value (ground (arith, e))),
      λ (same, member, harmless). ground (arith, same, from_member member, from_value harmless),
    )
