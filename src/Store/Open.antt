-- ===== src/Store/Open.antt =====
-- `Open`, `rebind` and `SchemaVersion` of internal/store/store.go, and `loadCipher` of crypt.go.
pub mod Configured
use promptnet.Prelude.{
  ℕ, suc, ◌+◌, Bool, true, false, ◌||◌, not, Option, none, some, [], ◌∷◌, ◌++◌, Str, ◌==◌, nat_eq,
  str_eq, if◌then◌else◌, codes, length,
}
use promptnet.Prelude.Decimal.{decimal}
use promptnet.Prelude.Text.{has_prefix, trim_space}
use promptnet.Store.Env.{Aead}
use promptnet.Store.Migrate.{Schema, migrate}

-- the rest of a query, behind `n` placeholders
unfoldable pub rebind_from : ℕ → Str → Str
unfolding decimal
rebind_from n [] = []
rebind_from n (c ∷ q) =
    let next = rebind_from (suc n) q in
    let rest = rebind_from n q in if c == b'?' then (b'$' ∷ decimal (suc n)) ++ next else c ∷ rest

-- `pgx` is whether the driver is "pgx"
unfoldable pub rebind : Bool → Str → Str
unfolding rebind_from
rebind pgx q = if not pgx then q else rebind_from 0 q

unfoldable pub is_pgx : Str → Bool
unfolding has_prefix
is_pgx dsn = has_prefix dsn (codes "postgres://") || has_prefix dsn (codes "postgresql://")

abbrev pub on_conflict : Str
on_conflict =
    codes
      "\n\t\t\tON CONFLICT(uri) DO UPDATE SET template=excluded.template, slots=excluded.slots, version_hash=excluded.version_hash"

unfoldable pub put_query : Bool → Str
put_query true =
    codes "INSERT INTO prompts(uri, template, slots, version_hash) VALUES($1,$2,$3,$4)"
    ++ on_conflict
put_query false =
    codes "INSERT INTO prompts(uri, template, slots, version_hash) VALUES(?,?,?,?)" ++ on_conflict

unfoldable pub get_query : Bool → Str
get_query true = codes "SELECT uri, template, slots, version_hash FROM prompts WHERE uri=$1"
get_query false = codes "SELECT uri, template, slots, version_hash FROM prompts WHERE uri=?"

-- base64, and AES-GCM of a key: none where aes.NewCipher or cipher.NewGCM fails
pub record Ciphers : Type 0 where
  pub base64_decode : Str → Option Str
  pub gcm : Str → Option Aead

module _ (ciphers : Ciphers) where
  unfoldable pub checked_cipher : Option Str → Option (Option Aead)
  checked_cipher none = none
  checked_cipher (some key) =
      if not (length key == 32)
      then none
      else elim (ciphers.gcm key) [ none ↦ none | some a ↦ some (some a) ]

  -- by the value of PROMPTNET_ENCRYPTION_KEY; none is an error, `some none` stores plaintext
  unfoldable pub load_cipher : Str → Option (Option Aead)
  unfolding checked_cipher
  load_cipher [] = some none
  load_cipher (c ∷ raw) = checked_cipher (ciphers.base64_decode (trim_space (c ∷ raw)))

  -- `Store` without its connection
  pub record Opened : Type 0 where
    pub pgx : Bool
    pub version : ℕ
    pub put_text : Str
    pub get_text : Str
    pub aead : Option Aead

  unfoldable pub with_cipher : Bool → ℕ → Option (Option Aead) → Option Opened
  unfolding put_query get_query
  with_cipher pgx version none = none
  with_cipher pgx version (some aead) = some (record {
    pgx = pgx;
    version = version;
    put_text = put_query pgx;
    get_text = get_query pgx;
    aead = aead;
  })

  -- `connects` is whether sql.Open gives a handle, `n` the number of migrations
  unfoldable pub open_store : ℕ → Str → Bool → Str → Schema → Option Opened × Schema
  unfolding with_cipher load_cipher is_pgx
  open_store n dsn false raw s = (none, s)
  open_store n dsn true raw s =
      let m = migrate n s in
      (if m.done then with_cipher (is_pgx dsn) m.version (load_cipher raw) else none, m.schema)
