-- ===== src/Tests/Access.antt =====
-- The laws of the operational keys at a concrete key and a concrete draw.
use zappermeow.Base.{
  ℕ, zero, suc, ◌+◌, ◌<◌, Bool, false, List, [], ◌∷◌, ◌++◌, some, none, err, ◌≡◌, refl, inl, inr,
  arith, All,
}
use zappermeow.Access.ApiKey.{
  GeneratedApiKey, generated, generate_api_key, api_key_prefix, fill, set_bytes,
}
use zappermeow.Access.KeyLaws.{IsBuffer, generate_api_key-injective}
use zappermeow.Access.Keys.{KeyCall, invalid, authenticate, revoke, revoked_row}
use zappermeow.Store.Accounts.{ApiKeyRow, ApiKeyStatus, TenantRow, TenantStatus, Accounts, key_id}
use zappermeow.Access.Revocation.{revoke-authenticate}
use zappermeow.Store.Keys.{IsKeyed}
use zappermeow.Store.Table.{find}
use zappermeow.Tests.Workers.{resting}

-- A sum in place of the digest.
abbrev pub digest : List ℕ → ℕ
digest [] = 0
digest (c ∷ cs) = c + digest cs

abbrev repeat : ℕ → ℕ → List ℕ
repeat zero c = []
repeat (suc n) c = c ∷ repeat n c

-- 31 bytes of zero and one of 61.
abbrev pub drawn : List ℕ
drawn = repeat 31 0 ++ (61 ∷ [])

abbrev pub minted : GeneratedApiKey
minted = generated digest (api_key_prefix ++ repeat 42 48 ++ (122 ∷ []))

repeat-All : (n c : ℕ) → c < 256 → All (λ b. b < 256) (repeat n 0 ++ (c ∷ []))
repeat-All zero c l = (l, tt)
repeat-All (suc n) c l = (omega arith, repeat-All n c l)

drawn-IsBuffer : IsBuffer drawn
drawn-IsBuffer = (refl, repeat-All 31 61 (omega arith))

drawn-minted : generate_api_key digest drawn ≡ some minted
unfolding generate_api_key fill set_bytes
drawn-minted = refl

generate_api_key-injective_example : drawn ≡ drawn
generate_api_key-injective_example =
    generate_api_key-injective digest drawn drawn minted minted drawn-IsBuffer drawn-IsBuffer
      drawn-minted drawn-minted refl

abbrev pub key : ApiKeyRow
key = record {
  id = 1;
  instance_id = 7;
  label = none;
  key_prefix = 122 ∷ [];
  secret_hash = 5;
  status = ApiKeyStatus.active;
  created_at = 10;
  revoked_at = none;
}

abbrev pub customer : TenantRow
customer = record { id = 3; name = "ACME"; status = TenantStatus.active; updated_at = 5 }

abbrev pub desk : Accounts
desk = record {
  users = [];
  keys = key ∷ [];
  instances = resting ∷ [];
  tenants = customer ∷ [];
  events = [];
}

abbrev pub reachable : KeyCall → Bool
reachable c = false

desk-IsKeyed : IsKeyed key_id desk.keys
unfolding find
desk-IsKeyed r (inl e) = ground arith
desk-IsKeyed r (inr i) = absurd i

abbrev after : Accounts
after = (revoke reachable 20 3 7 1 9 desk).0

revoke-authenticate_example :
    authenticate digest reachable (2 ∷ 3 ∷ []) (some 7) after ≡ err invalid
unfolding find revoke revoked_row
revoke-authenticate_example =
    revoke-authenticate digest reachable reachable 20 3 7 1 9 desk after 2 (3 ∷ []) (some 7)
      desk-IsKeyed refl
