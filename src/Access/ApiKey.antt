-- ===== src/Access/ApiKey.antt =====
-- internal/domain/apikey.go. A Go string or []byte is the list of its bytes, a big.Int is its value;
-- SHA-256 is an argument, whose digest of 32 bytes is the number they make.
use zappermeow.Base.{
  ℕ, zero, suc, ◌+◌, ◌*◌, ◌/◌, ◌%◌, Bool, true, false, ◌&&◌, List, [], ◌∷◌, ◌++◌, Option, none,
  some, ltb, ◌==◌, length, take,
}

infixl 5 ◌>>=◌
abbrev ◌>>=◌ {ℓ κ} : {A : Type ℓ} {B : Type κ} → Option A → (A → Option B) → Option B
none >>= f = none
some a >>= f = f a

-- "zmk_".
abbrev pub api_key_prefix : List ℕ
api_key_prefix = 122 ∷ 109 ∷ 107 ∷ 95 ∷ []

abbrev pub api_key_secret_bytes : ℕ
api_key_secret_bytes = 32

abbrev api_key_secret_chars : ℕ
api_key_secret_chars = 43

abbrev api_key_prefix_length : ℕ
api_key_prefix_length = 12

-- The digits, the capitals, the small letters.
abbrev pub base62_alphabet : List ℕ
base62_alphabet =
    48 ∷ 49 ∷ 50 ∷ 51 ∷ 52 ∷ 53 ∷ 54 ∷ 55 ∷ 56 ∷ 57 ∷ 65 ∷ 66 ∷ 67 ∷ 68 ∷ 69 ∷ 70 ∷ 71 ∷ 72 ∷ 73
    ∷ 74 ∷ 75 ∷ 76 ∷ 77 ∷ 78 ∷ 79 ∷ 80 ∷ 81 ∷ 82 ∷ 83 ∷ 84 ∷ 85 ∷ 86 ∷ 87 ∷ 88 ∷ 89 ∷ 90 ∷ 97 ∷ 98
    ∷ 99 ∷ 100 ∷ 101 ∷ 102 ∷ 103 ∷ 104 ∷ 105 ∷ 106 ∷ 107 ∷ 108 ∷ 109 ∷ 110 ∷ 111 ∷ 112 ∷ 113 ∷ 114
    ∷ 115 ∷ 116 ∷ 117 ∷ 118 ∷ 119 ∷ 120 ∷ 121 ∷ 122 ∷ []

-- Indexing; out of range it panics, which is `none`.
abbrev pub get_elem? : List ℕ → ℕ → Option ℕ
get_elem? [] i = none
get_elem? (x ∷ xs) zero = some x
get_elem? (x ∷ xs) (suc i) = get_elem? xs i

-- `big.Int.SetBytes` onto a value read so far: the first byte counts most.
unfoldable pub set_bytes : ℕ → List ℕ → ℕ
set_bytes value [] = value
set_bytes value (b ∷ bs) = set_bytes (value * 256 + b) bs

-- The loop from the last position down to the first; `out` holds the positions already written.
unfoldable pub fill : ℕ → ℕ → List ℕ → Option (List ℕ)
fill zero value out = some out
fill (suc i) value out = do
  digit ← get_elem? base62_alphabet (value % 62)
  fill i (value / 62) (digit ∷ out)

-- `buf` is what `rand.Read` left in the buffer.
abbrev pub random_base62 : List ℕ → Option (List ℕ)
random_base62 buf = fill api_key_secret_chars (set_bytes 0 buf) []

pub record GeneratedApiKey : Type 0 where
  pub secret : List ℕ
  pub prefix : List ℕ
  pub hash : ℕ

abbrev pub generated : (List ℕ → ℕ) → List ℕ → GeneratedApiKey
generated sha256 token = record {
  secret = token;
  prefix = take api_key_prefix_length token;
  hash = sha256 token;
}

unfoldable pub generate_api_key : (List ℕ → ℕ) → List ℕ → Option GeneratedApiKey
generate_api_key sha256 buf = do
  secret ← random_base62 buf
  let token = api_key_prefix ++ secret
  some (generated sha256 token)

abbrev pub has_prefix : List ℕ → List ℕ → Bool
has_prefix s [] = true
has_prefix [] (p ∷ ps) = false
has_prefix (c ∷ cs) (p ∷ ps) = (c == p) && has_prefix cs ps

unfoldable pub looks_like_api_key : List ℕ → Bool
looks_like_api_key token =
    has_prefix token api_key_prefix && ltb api_key_prefix_length (length token)
