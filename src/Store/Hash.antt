-- ===== src/Store/Hash.antt =====
-- `Hash` and `CommitHash` of internal/store/store.go.
pub mod Injective
pub mod Valid
use promptnet.Prelude.{ℕ, ◌/◌, ◌%◌, ◌+◌, ◌-◌, List, [], ◌∷◌, ◌++◌, Str, if◌then◌else◌, ltb}
use promptnet.Prelude.Text.{join}
use promptnet.Store.Env.{Env}

-- encoding/hex.EncodeToString
unfoldable pub hex_digit : ℕ → ℕ
hex_digit d = if ltb d 10 then d + b'0' else d - 10 + b'a'

unfoldable pub hex : Str → Str
unfolding hex_digit
hex [] = []
hex (c ∷ s) = hex_digit (c / 16) ∷ hex_digit (c % 16) ∷ hex s

-- what `Hash` writes to the digest
unfoldable pub content_preimage : Str → List Str → Str
content_preimage template slots = template ++ (0 ∷ join slots (0 ∷ []))

unfoldable pub fields_preimage : List Str → Str
fields_preimage [] = []
fields_preimage (p ∷ parts) = p ++ (0 ∷ fields_preimage parts)

-- what `CommitHash` writes to the digest
unfoldable pub commit_preimage : Str → Str → Str → Str → Str → Str
unfolding fields_preimage
commit_preimage version_hash parent parent2 author message =
    fields_preimage (version_hash ∷ parent ∷ parent2 ∷ author ∷ message ∷ [])

module _ (env : Env) where
  unfoldable pub hash : Str → List Str → Str
  hash template slots = hex (env.sha256 (content_preimage template slots))

  unfoldable pub commit_hash : Str → Str → Str → Str → Str → Str
  commit_hash version_hash parent parent2 author message =
      hex (env.sha256 (commit_preimage version_hash parent parent2 author message))
