-- ===== src/Domain/Validate.antt =====
-- internal/domain/validate.go: the rules on names, addresses, passwords and labels, and the merging of
-- their failures. `lower` is `strings.ToLower` on a text and `parse_address` the address that
-- `mail.ParseAddress` reads; the number in a message is left out.
use Prim.Native.String.{String}
use Prim.Native.Char.{code}
use zappermeow.Base.{
  ℕ, suc, ◌+◌, Bool, ◌&&◌, ◌||◌, List, [], ◌∷◌, ◌++◌, Option, none, some, leb, false, ltb, ◌==◌,
  if◌then◌else◌, is_empty, same_text,
}
use zappermeow.Domain.Errors.{Error, FieldError, err_validation, err_validation_fields}

abbrev pub max_name_length : ℕ
max_name_length = 120

abbrev max_label_len : ℕ
max_label_len = 60

abbrev min_password_length : ℕ
min_password_length = 8

-- `unicode.IsSpace`.
abbrev pub is_space : ℕ → Bool
is_space c =
    (leb 9 c && leb c 13)
    || (c == 32)
    || (c == 0x85)
    || (c == 0xA0)
    || (c == 0x1680)
    || (leb 0x2000 c && leb c 0x200A)
    || (c == 0x2028)
    || (c == 0x2029)
    || (c == 0x202F)
    || (c == 0x205F)
    || (c == 0x3000)

unfoldable pub trim_left : String → String
trim_left String.[] = String.[]
trim_left (String.◌∷◌ c s) =
    let rest = trim_left s in if is_space (code c) then rest else String.◌∷◌ c s

unfoldable pub trim_right : String → String
trim_right String.[] = String.[]
trim_right (String.◌∷◌ c s) =
    let rest = trim_right s in
    if is_space (code c) && is_empty rest then String.[] else String.◌∷◌ c rest

-- `strings.TrimSpace`.
unfoldable pub trim_space : String → String
trim_space s = trim_right (trim_left s)

-- `utf8.RuneCountInString`.
unfoldable pub rune_count : String → ℕ
rune_count String.[] = 0
rune_count (String.◌∷◌ c s) = suc (rune_count s)

-- `len` of a text: the bytes of its UTF-8 form.
abbrev width : ℕ → ℕ
width c = if ltb c 0x80 then 1 else if ltb c 0x800 then 2 else if ltb c 0x10000 then 3 else 4

unfoldable pub byte_length : String → ℕ
byte_length String.[] = 0
byte_length (String.◌∷◌ c s) = width (code c) + byte_length s

abbrev pub normalize_name : String → String
normalize_name = trim_space

-- A Go `error` is `none` for nil.
unfoldable pub validate_name : String → String → Option Error
validate_name location name =
    let trimmed = normalize_name name in
    if is_empty trimmed
    then some (err_validation location "must not be empty")
    else if ltb max_name_length (rune_count trimmed)
    then some (err_validation location "expected length <= 120")
    else none

unfoldable pub validate_password : String → String → Option Error
validate_password location password =
    if ltb (rune_count password) min_password_length
    then some (err_validation location "expected length >= 8")
    else none

unfoldable pub validate_label : String → String → Option Error
validate_label location label =
    if ltb max_label_len (rune_count (trim_space label))
    then some (err_validation location "expected length <= 60")
    else none

abbrev pub normalize_email : (String → String) → String → String
normalize_email lower email = lower (trim_space email)

module _ (lower : String → String) (parse_address : String → Option String) where
  abbrev is_address : Option String → String → Bool
  is_address none trimmed = false
  is_address (some address) trimmed = same_text address trimmed

  unfoldable pub validate_email : String → String → Option Error
  validate_email location email =
      let trimmed = normalize_email lower email in
      if is_empty trimmed
      then some (err_validation location "must not be empty")
      else if is_address (parse_address trimmed) trimmed
      then none
      else some (err_validation location "must be a valid email address")

abbrev error_fields : List (Option Error) → List FieldError
error_fields [] = []
error_fields (none ∷ es) = error_fields es
error_fields (some e ∷ es) = e.fields ++ error_fields es

-- Every error here is one of the domain, so the branch for others is not reached.
unfoldable pub collect_errors : List (Option Error) → Option Error
collect_errors es = elim (error_fields es) [
  | [] ↦ none
  | f ∷ fs ↦ some (err_validation_fields (f ∷ fs))
]
