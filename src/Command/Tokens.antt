-- ===== src/Command/Tokens.antt =====
-- `loadTokens`, `isExpiry` and `parseExpiry`: the tokens file of the server. `none` is log.Fatal, or
-- an index out of range.
pub mod Loads
use promptnet.Prelude.{
  ℕ, Bool, true, false, ◌||◌, Option, none, some, List, [], ◌∷◌, Str, ◌==◌, str_eq, if◌then◌else◌,
  codes,
}
use promptnet.Prelude.Assoc
use promptnet.Prelude.Text.{has_prefix, split, trim_space, fields}
use promptnet.Server.Auth.{Token}

-- time.Parse with the layout of a date and with RFC 3339; 0 is the zero time
pub record Times : Type 0 where
  pub date : Str → Option ℕ
  pub rfc3339 : Str → Option ℕ

-- PROMPTNET_TOKEN
unfoldable pub from_env : Str → List (Str × Token)
from_env [] = []
from_env (c ∷ t) = (c ∷ t, record { org = []; expires = 0; write = true }) ∷ []

module _ (times : Times) where
  unfoldable pub is_expiry : Str → Bool
  is_expiry s = elim (times.date s) [
    | some _ ↦ true
    | none ↦ elim (times.rfc3339 s) [ some _ ↦ true | none ↦ false ]
  ]

  unfoldable pub parse_expiry : Str → Option ℕ
  parse_expiry s = elim (times.date s) [ some t ↦ some t | none ↦ times.rfc3339 s ]

  unfoldable pub with_expiry : Token → Option ℕ → Option Token
  with_expiry tok none = none
  with_expiry tok (some t) = some (record tok { expires = t })

  -- one turn of the loop over the fields behind the token
  unfoldable pub read_field : Str → Token → Option Token
  unfolding is_expiry parse_expiry with_expiry
  read_field f tok =
      if f == codes "rw"
      then some (record tok { write = true })
      else if f == codes "ro"
      then some tok
      else if is_expiry f
      then with_expiry tok (parse_expiry f)
      else some (record tok { org = f })

  unfoldable pub read_fields : List Str → Token → Option Token
  read_fields [] tok = some tok
  read_fields (f ∷ fs) tok = elim (read_field f tok) [
    | none ↦ none
    | some next ↦ read_fields fs next
  ]

  unfoldable pub grant : Str → Option Token → List (Str × Token) → Option (List (Str × Token))
  grant key none tokens = none
  grant key (some tok) tokens = some (Assoc.set key tok tokens)

  unfoldable pub load_fields : List Str → List (Str × Token) → Option (List (Str × Token))
  unfolding grant read_fields
  load_fields [] tokens = none
  load_fields (key ∷ rest) tokens =
      grant key (read_fields rest (record { org = []; expires = 0; write = false })) tokens

  -- a line without the white space around it
  unfoldable pub load_trimmed : Str → List (Str × Token) → Option (List (Str × Token))
  unfolding load_fields
  load_trimmed line tokens =
      if line == [] || has_prefix line (codes "#")
      then some tokens
      else load_fields (fields line) tokens

  unfoldable pub load_lines : List Str → List (Str × Token) → Option (List (Str × Token))
  load_lines [] tokens = some tokens
  load_lines (line ∷ rest) tokens = elim (load_trimmed (trim_space line) tokens) [
    | none ↦ none
    | some next ↦ load_lines rest next
  ]

  -- `file` is "", or `read` gives its content or an error
  unfoldable pub load_tokens : Str → Str → Option Str → Option (List (Str × Token))
  unfolding from_env load_lines
  load_tokens env [] read = some (from_env env)
  load_tokens env (_ ∷ _) none = none
  load_tokens env (_ ∷ _) (some content) = load_lines (split content b'\n') (from_env env)
