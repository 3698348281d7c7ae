-- ===== src/Access/KeyLaws.antt =====
-- What the operational keys of internal/domain/apikey.go promise.
use zappermeow.Base.{
  ℕ, zero, suc, ◌+◌, ◌*◌, ◌/◌, ◌%◌, ◌^◌, ◌≤◌, ◌<◌, Bool, true, false, List, [], ◌∷◌, ◌++◌, Option,
  none, some, ◌≡◌, refl, sym, ap, ◌∙◌, inl, inr, arith, if◌then◌else◌, ◌==◌, length, take, All,
  Option-cases, Bool-cases, ==_iff,
}
use native.Mathlib.Nat.{pow-suc}
use zappermeow.Access.ApiKey.{
  base62_alphabet, get_elem?, set_bytes, fill, api_key_secret_bytes, generate_api_key, generated,
  looks_like_api_key, GeneratedApiKey, api_key_prefix,
}

-- Where a character stands in the alphabet.
abbrev index_from : ℕ → List ℕ → ℕ → ℕ
index_from i [] c = i
index_from i (x ∷ xs) c = let rest = index_from (suc i) xs c in if x == c then i else rest

unfoldable digit_value : ℕ → ℕ
digit_value = index_from 0 base62_alphabet

unfoldable digit_at : ℕ → Option ℕ
digit_at = get_elem? base62_alphabet

-- The number that a text of digits writes, read after the number `value`.
abbrev read : ℕ → List ℕ → ℕ
read value [] = value
read value (d ∷ ds) = read (value * 62 + digit_value d) ds

-- Whether a digit reads as `i`.
abbrev reads : ℕ → Option ℕ → Bool
reads i none = false
reads i (some d) = digit_value d == i

abbrev all_below : (ℕ → Bool) → ℕ → Bool
all_below p zero = true
all_below p (suc n) = let rest = all_below p n in if p n then rest else false

below : (p : ℕ → Bool) (n i : ℕ) → all_below p n ≡ true → i < n → p i ≡ true
below p zero i h l = absurd (omega arith)
below p (suc n) i h l = elim (Bool-cases (p n)) [
  | inr fails ↦ absurd (ground (arith, h, fails))
  | inl passes ↦ elim (Bool-cases (i == n)) [
    | inl same ↦ ap p ((==_iff i n).0 same) ∙ passes
    | inr other ↦ below p n i (rw passes at h) (ground (arith, other, l))
  ]
]

-- Every digit of the alphabet reads as its place.
all_read : all_below (λ i. reads i (digit_at i)) 62 ≡ true
unfolding digit_value digit_at
all_read = refl

digit-read : (i : ℕ) → i < 62 → (d : ℕ) × (digit_at i ≡ some d) × (digit_value d ≡ i)
digit-read i l =
    let here = below (λ i. reads i (digit_at i)) 62 i all_read l in
    elim (Option-cases (digit_at i)) [
      | inl gone ↦ absurd (ground (arith, here, gone))
      | inr (d, there) ↦ (d, there, (==_iff (digit_value d) i).0 (sym (ap (reads i) there) ∙ here))
    ]

fill-read :
    (n value : ℕ) (out : List ℕ)
    → value < 62 ^ n
    → (r : List ℕ) × (fill n value out ≡ some r)
      × (read 0 r ≡ read value out)
      × (length r ≡ n + length out)
unfolding fill digit_at
fill-read zero value out l =
    let nought : 0 ≡ value = omega arith in (out, refl, ap (λ v. read v out) nought, omega arith)
fill-read (suc n) value out l =
    let (d, there, is) = digit-read (value % 62) (omega arith) in
    let (r, done, same, len) = fill-read n (value / 62) (d ∷ out) (omega (arith, pow-suc 62 n)) in
    let back : value / 62 * 62 + digit_value d ≡ value = omega (arith, is) in
    (r, rw there done, same ∙ ap (λ v. read v out) back, omega (arith, len))

set_bytes-lt :
    (value k : ℕ) (bs : List ℕ)
    → value < k
    → All (λ b. b < 256) bs
    → set_bytes value bs < k * 256 ^ length bs
unfolding set_bytes
set_bytes-lt value k [] l h = omega arith
set_bytes-lt value k (b ∷ bs) l (h, hs) =
    let step = set_bytes-lt (value * 256 + b) (k * 256) bs (omega arith) hs in
    omega (arith, step, ap (◌*◌ k) (pow-suc 256 (length bs)))

set_bytes-injective :
    (v w : ℕ) (bs cs : List ℕ)
    → length bs ≡ length cs
    → All (λ b. b < 256) bs
    → All (λ b. b < 256) cs
    → set_bytes v bs ≡ set_bytes w cs
    → (v ≡ w) × (bs ≡ cs)
unfolding set_bytes
set_bytes-injective v w [] [] e h k s = (s, refl)
set_bytes-injective v w [] (c ∷ cs) e h k s = absurd (omega arith)
set_bytes-injective v w (b ∷ bs) [] e h k s = absurd (omega arith)
set_bytes-injective v w (b ∷ bs) (c ∷ cs) e (h, hs) (k, ks) s =
    let (prior, rest) =
      set_bytes-injective (v * 256 + b) (w * 256 + c) bs cs (omega arith) hs ks s in
    let first : b ≡ c = omega arith in (omega arith, rw (first, rest) refl)

length-take : (n : ℕ) (xs : List ℕ) → n ≤ length xs → length (take n xs) ≡ n
length-take zero xs l = refl
length-take (suc n) [] l = absurd (omega arith)
length-take (suc n) (x ∷ xs) l = omega (arith, length-take n xs (omega arith))

abbrev pub IsBuffer : List ℕ → Type 0
IsBuffer buf = (length buf ≡ api_key_secret_bytes) × All (λ b. b < 256) buf

-- The 43 digits hold every value of 32 bytes.
buffer-fits : (buf : List ℕ) → IsBuffer buf → set_bytes 0 buf < 62 ^ 43
buffer-fits buf (n, small) =
    let bound = set_bytes-lt 0 1 buf (omega arith) small in omega (arith, bound, ap (◌^◌ 256) n)

generate_api_key-read :
    (sha256 : List ℕ → ℕ) (buf : List ℕ)
    → IsBuffer buf
    → (r : List ℕ) × (generate_api_key sha256 buf ≡ some (generated sha256 (api_key_prefix ++ r)))
      × (read 0 r ≡ set_bytes 0 buf)
      × (length r ≡ 43)
unfolding generate_api_key
generate_api_key-read sha256 buf ready =
    let (r, done, same, len) = fill-read 43 (set_bytes 0 buf) [] (buffer-fits buf ready) in
    (r, rw done refl, same, len)

-- From any 32 random bytes a key comes out: 47 characters that pass the cheap filter, of which the first
-- 12 are stored in clear, with the digest of the whole.
generate_api_key-looks_like_api_key :
    (sha256 : List ℕ → ℕ) (buf : List ℕ)
    → IsBuffer buf
    → (g : GeneratedApiKey) × (generate_api_key sha256 buf ≡ some g)
      × (length g.secret ≡ 47)
      × (length g.prefix ≡ 12)
      × (g.prefix ≡ take 12 g.secret)
      × (g.hash ≡ sha256 g.secret)
      × (looks_like_api_key g.secret ≡ true)
unfolding looks_like_api_key
generate_api_key-looks_like_api_key sha256 buf ready =
    let (r, done, value, len) = generate_api_key-read sha256 buf ready in
    (
      generated sha256 (api_key_prefix ++ r),
      done,
      omega (arith, len),
      omega (arith, len, length-take 8 r),
      refl,
      refl,
      ground (arith, len),
    )

-- The key carries all the bytes that were drawn: two draws of 32 bytes give one key only if they are
-- the same bytes.
pub generate_api_key-injective :
    (sha256 : List ℕ → ℕ) (buf other : List ℕ) (g h : GeneratedApiKey)
    → IsBuffer buf
    → IsBuffer other
    → generate_api_key sha256 buf ≡ some g
    → generate_api_key sha256 other ≡ some h
    → g.secret ≡ h.secret
    → buf ≡ other
generate_api_key-injective sha256 buf other g h ready again done made same =
    let (r, done', value, len) = generate_api_key-read sha256 buf ready in
    let (r', made', value', len') = generate_api_key-read sha256 other again in
    let one : api_key_prefix ++ r ≡ api_key_prefix ++ r' =
      ap secret_of (sym done' ∙ done) ∙ same ∙ ap secret_of (sym made ∙ made') in
    let digits : r ≡ r' = cc in
    let sums : set_bytes 0 buf ≡ set_bytes 0 other = sym value ∙ ap (read 0) digits ∙ value' in
    (set_bytes-injective 0 0 buf other (ready.0 ∙ sym again.0) ready.1 again.1 sums).1
  where
    secret_of : Option GeneratedApiKey → List ℕ
    secret_of none = []
    secret_of (some x) = x.secret
