-- ===== src/Store/Crypt.antt =====
-- internal/store/crypt.go: column encryption.
pub mod RoundTrip
use promptnet.Prelude.{◌+◌, none, some, ◌++◌, Str, length, take, drop, codes, if◌then◌else◌, ltb}
use promptnet.Prelude.Text.{cut_prefix}
use promptnet.Store.Env.{Env, Aead}
use promptnet.Store.Exec.{Result, ok, err, bad_column, Exec}

abbrev pub enc_prefix : Str
enc_prefix = codes "enc1:"

module _ (env : Env) where
  -- The nonce stands in front of the ciphertext, and the whole is base64 behind the mark.
  unfoldable pub sealed : Aead → Str → Str → Str
  sealed a nonce plain = enc_prefix ++ env.base64_encode (nonce ++ a.seal nonce plain)

  unfoldable pub seal : Str → Exec Str
  unfolding sealed
  seal plain s = elim env.aead [
    | none ↦ (ok plain, s)
    | some a ↦
        (ok (sealed a (env.random a.nonce_size s.draws) plain), record s { draws = s.draws + 1 })
  ]

  unfoldable pub decrypt : Aead → Str → Result Str
  decrypt a ct =
      if ltb (length ct) a.nonce_size
      then err bad_column
      else elim (a.unseal (take a.nonce_size ct) (drop a.nonce_size ct)) [
        | none ↦ err bad_column
        | some plain ↦ ok plain
      ]

  -- `open`: a value without the mark is plaintext
  unfoldable pub unseal : Str → Result Str
  unfolding decrypt
  unseal stored = elim env.aead [
    | none ↦ ok stored
    | some a ↦ elim (cut_prefix stored enc_prefix) [
      | none ↦ ok stored
      | some encoded ↦ elim (env.base64_decode encoded) [
        | none ↦ err bad_column
        | some ct ↦ decrypt a ct
      ]
    ]
  ]
