-- ===== src/Command/Setup.antt =====
-- `genToken` and `initCmd`, and the connection string that they print: `connURL`, `envHost` and
-- `authCtx`. `none` is log.Fatal.
pub mod Opens
use promptnet.Prelude.{
  Bool, ◌&&◌, ◌||◌, not, Option, none, some, [], ◌∷◌, ◌++◌, Str, ◌==◌, str_eq, if◌then◌else◌, codes,
}
use promptnet.Prelude.Text.{has_prefix}
use promptnet.Store.Hash.{hex}

-- what is printed; `random` is the outcome of rand.Read for 32 bytes
unfoldable pub gen_token : Option Str → Option Str
gen_token none = none
gen_token (some random) = some (hex random ++ codes "\n")

pub record Setup : Type 0 where
  pub file : Str
  pub url : Str

unfoldable pub written : Str → Str → Setup
written token addr = record {
  file = token ++ codes " rw\n";
  url = codes "promptnet://" ++ (token ++ (codes "@" ++ addr));
}

-- the file that is written and the URL that is printed; `writes` is whether the file can be written
unfoldable pub init_cmd : Str → Bool → Bool → Option Str → Bool → Option Setup
unfolding written
init_cmd addr exists force none writes = none
init_cmd addr exists force (some random) writes =
    if exists && not force then none else if writes then some (written (hex random) addr) else none

-- strings.Contains
unfoldable pub has_infix : Str → Str → Bool
unfolding has_prefix
has_infix [] p = has_prefix [] p
has_infix (c ∷ s) p = has_prefix (c ∷ s) p || has_infix s p

-- `parse` gives the host and the user name that url.Parse finds
module _ (parse : Str → Option (Str × Str)) where
  unfoldable pub conn_url : Str → Option (Str × Str)
  unfolding has_infix
  conn_url raw =
      if raw == []
      then some ([], [])
      else if not (has_infix raw (codes "://"))
      then some (raw, [])
      else parse raw

  unfoldable pub host_or_local : Option (Str × Str) → Option Str
  host_or_local none = none
  host_or_local (some ([], token)) = some (codes "localhost:8443")
  host_or_local (some (c ∷ host, token)) = some (c ∷ host)

  unfoldable pub env_host : Str → Option Str
  unfolding conn_url host_or_local
  env_host url = host_or_local (conn_url url)

  unfoldable pub token_of : Option (Str × Str) → Option Str
  token_of none = none
  token_of (some (host, token)) = some token

  unfoldable pub bearer_of : Option Str → Option (Option Str)
  bearer_of none = none
  bearer_of (some []) = some none
  bearer_of (some (c ∷ token)) = some (some (codes "Bearer " ++ (c ∷ token)))

  -- the authorization value that a call sends, for PROMPTNET_TOKEN and PROMPTNET_URL
  unfoldable pub auth_ctx : Str → Str → Option (Option Str)
  unfolding conn_url token_of bearer_of
  auth_ctx [] url = bearer_of (token_of (conn_url url))
  auth_ctx (c ∷ token) url = bearer_of (some (c ∷ token))
