-- ===== src/Store/Env.antt =====
-- What internal/store calls and does not implement: SHA-256, the JSON and base64 codecs, AES-GCM
-- and the random source. The laws are what the packages document of them.
use promptnet.Prelude.{ℕ, ◌≡◌, Option, some, List, [], ◌∷◌, Str, length}

-- crypto/cipher.AEAD
pub record Aead : Type 0 where
  pub nonce_size : ℕ
  -- Seal(nil, nonce, plaintext, nil)
  pub seal : Str → Str → Str
  -- Open(nil, nonce, ciphertext, nil)
  pub unseal : Str → Str → Option Str

-- `aead` is the field of `Store`; `random n k` is the k-th read of n bytes from crypto/rand.
pub record Env : Type 0 where
  pub sha256 : Str → Str
  pub marshal : List Str → Str
  pub unmarshal : Str → Option (List Str)
  pub base64_encode : Str → Str
  pub base64_decode : Str → Option Str
  pub random : ℕ → ℕ → Str
  pub aead : Option Aead

-- `IsText` holds of the strings that JSON carries unchanged, those of valid UTF-8.
abbrev pub AllText : (Str → Type 0) → List Str → Type 0
AllText IsText [] = Unit
AllText IsText (s ∷ slots) = IsText s × AllText IsText slots

pub record EnvLaws (env : Env) (IsText : Str → Type 0) : Type 0 where
  pub length-sha256 : (s : Str) → length (env.sha256 s) ≡ 32
  pub unmarshal-marshal : (l : List Str) → AllText IsText l → env.unmarshal (env.marshal l) ≡ some l
  pub decode-encode : (s : Str) → env.base64_decode (env.base64_encode s) ≡ some s
  pub length-random : (n k : ℕ) → length (env.random n k) ≡ n
  pub unseal-seal :
      (a : Aead) (nonce plain : Str)
      → env.aead ≡ some a
      → length nonce ≡ a.nonce_size
      → a.unseal nonce (a.seal nonce plain) ≡ some plain
