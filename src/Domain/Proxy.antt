-- ===== src/Domain/Proxy.antt =====
-- internal/domain/proxy.go: which addresses of a proxy are accepted, and the form that is shown. The
-- library of URLs is the argument `Urls`, `lower` is `strings.ToLower`.
use Prim.Native.String.{String}
use Prim.Native.Char.{code}
use zappermeow.Base.{
  ℕ, Bool, not, ◌||◌, Option, none, some, ltb, ◌==◌, if◌then◌else◌, is_empty, same_text,
}
use zappermeow.Domain.Errors.{
  Error, err_validation, err_invalid_proxy_url, err_unsupported_proxy_scheme,
}
use zappermeow.Domain.Validate.{trim_space, byte_length}

-- The parts of a URL that the code reads or replaces; `rest` is all others.
pub record Url : Type 0 where
  pub scheme : String
  pub username : Option String
  pub password : Option String
  pub host : String
  pub hostname : String
  pub rest : String

-- `none` is an error of the library; `print` is `URL.String`.
pub record Urls : Type 0 where
  pub parse : String → Option Url
  pub print : Url → String

abbrev max_proxy_url_length : ℕ
max_proxy_url_length = 1024

abbrev is_proxy_scheme : String → Bool
is_proxy_scheme s = same_text s "http" || same_text s "https" || same_text s "socks5"

abbrev pub normalize_proxy_url : String → String
normalize_proxy_url = trim_space

-- What is left of a text after a prefix.
abbrev strip : String → String → Option String
strip String.[] s = some s
strip (String.◌∷◌ p ps) String.[] = none
strip (String.◌∷◌ p ps) (String.◌∷◌ c s) =
    let after = strip ps s in if code p == code c then after else none

abbrev concat : String → String → String
concat String.[] t = t
concat (String.◌∷◌ c s) t = String.◌∷◌ c (concat s t)

-- `strings.Replace(s, old, new, 1)`, for an `old` that is not empty.
abbrev replace_first : String → String → String → String
replace_first old new String.[] = String.[]
replace_first old new (String.◌∷◌ c s) =
    let rest = replace_first old new s in
    elim (strip old (String.◌∷◌ c s)) [ some after ↦ concat new after | none ↦ String.◌∷◌ c rest ]

module _ (urls : Urls) where
  abbrev validate_parsed : (String → String) → Option Url → Option Error
  validate_parsed lower none = some err_invalid_proxy_url
  validate_parsed lower (some u) =
      let scheme = lower u.scheme in
      if is_empty scheme || is_empty u.host
      then some err_invalid_proxy_url
      else if not (is_proxy_scheme scheme)
      then some err_unsupported_proxy_scheme
      else if is_empty u.hostname
      then some err_invalid_proxy_url
      else none

  unfoldable pub validate_proxy_url : (String → String) → String → String → Option Error
  validate_proxy_url lower location raw =
      let trimmed = normalize_proxy_url raw in
      if is_empty trimmed
      then some (err_validation location "must not be empty")
      else if ltb max_proxy_url_length (byte_length trimmed)
      then some (err_validation location "proxy URL is too long")
      else validate_parsed lower (urls.parse trimmed)

  -- A password is there only with a user.
  abbrev without_password : Url → Url
  without_password u = elim u.password [ none ↦ u | some p ↦ record u { password = some "***" } ]

  abbrev mask_parsed : Option Url → String
  mask_parsed none = "***"
  mask_parsed (some u) =
      if is_empty u.host
      then "***"
      else replace_first "%2A%2A%2A" "***" (urls.print (without_password u))

  unfoldable pub mask_proxy_url : String → String
  mask_proxy_url raw =
      let trimmed = normalize_proxy_url raw in
      if is_empty trimmed then "" else mask_parsed (urls.parse trimmed)
