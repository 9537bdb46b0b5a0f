-- ===== src/Store/Examples/Open.antt =====
-- The theorem about `Open` at a PostgreSQL database that was never used.
use promptnet.Prelude.{◌≡◌, refl, true, some, [], Str, codes, arith}
use promptnet.Prelude.Text.{trim_space, is_blank}
use promptnet.Store.Examples.{toy_aead}
use promptnet.Store.Migrate.{Schema, IsAt, below, upto, migrate}
use promptnet.Store.Open.{Ciphers, Opened, is_pgx, put_query, get_query, open_store}
use promptnet.Store.Open.Configured.{IsConfigured, open_store-IsConfigured}

abbrev ciphers : Ciphers
ciphers = record { base64_decode = λ s. some s; gcm = λ key. some toy_aead }

abbrev raw : Str
raw = codes "kkkkkkkkkkkkkkkkkkkkkkkkkkkkkkkk"

abbrev unused : Schema
unused = record { versions = []; applied = []; io = [] }

abbrev dsn : Str
dsn = codes "postgres://db/prompts"

abbrev configured_store : Opened ciphers
configured_store = record {
  pgx = is_pgx dsn;
  version = 2;
  put_text = put_query (is_pgx dsn);
  get_text = get_query (is_pgx dsn);
  aead = some toy_aead;
}

test_open : (open_store ciphers 2 dsn true raw unused).0 ≡ some configured_store
unfolding open_store migrate trim_space is_blank
test_open = refl

unused-IsAt : IsAt 0 unused
unfolding below upto
unused-IsAt = record { applied = refl; versions = refl }

open_store-IsConfigured_example :
    IsConfigured ciphers 2 dsn raw configured_store (open_store ciphers 2 dsn true raw unused).1
open_store-IsConfigured_example =
    open_store-IsConfigured ciphers 2 0 dsn true raw unused configured_store (omega arith)
      unused-IsAt test_open
