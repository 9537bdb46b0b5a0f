-- ===== src/Store/Open/Configured.antt =====
-- What a store that could be opened is set up for.
use promptnet.Prelude.{
  ℕ, suc, ◌≤◌, ◌≡◌, ◌≢◌, refl, ap, subst, ◌∙◌, Bool, true, false, Option, none, some, List, [], ◌∷◌,
  ◌++◌, Str, nat_eq, str_eq, length, arith, Bool-cases, Option-cases, inl, inr,
}
use promptnet.Prelude.Decimal.{decimal, decimal_from}
use promptnet.Prelude.Text.{trim_space}
use promptnet.Store.Env.{Aead}
use promptnet.Store.Migrate.{Schema, migrate, IsAt, migrate-Reaches}
use promptnet.Store.Open.{
  rebind_from, rebind, is_pgx, put_query, get_query, Ciphers, checked_cipher, load_cipher, Opened,
  with_cipher, open_store,
}

-- no placeholder
abbrev pub NoMark : Str → Type 0
NoMark [] = Unit
NoMark (c ∷ s) = (c ≢ b'?') × NoMark s

abbrev pub AllNoMark : List Str → Type 0
AllNoMark [] = Unit
AllNoMark (s ∷ parts) = NoMark s × AllNoMark parts

-- a query from its parts, with a placeholder in front of each but the first
abbrev pub marked : List Str → Str
marked [] = []
marked (s ∷ parts) = b'?' ∷ (s ++ marked parts)

abbrev pub numbered : ℕ → List Str → Str
numbered n [] = []
numbered n (s ∷ parts) = (b'$' ∷ decimal (suc n)) ++ (s ++ numbered (suc n) parts)

rebind_from-NoMark : (n : ℕ) (s q : Str) → NoMark s → rebind_from n (s ++ q) ≡ s ++ rebind_from n q
unfolding rebind_from
rebind_from-NoMark n [] q h = refl
rebind_from-NoMark n (c ∷ s) q h = ground (arith, h.0, rebind_from-NoMark n s q h.1)

rebind_from-marked :
    (n : ℕ) (parts : List Str) → AllNoMark parts → rebind_from n (marked parts) ≡ numbered n parts
unfolding rebind_from
rebind_from-marked n [] h = refl
rebind_from-marked n (s ∷ parts) h =
    ap (λ x. (b'$' ∷ decimal (suc n)) ++ x)
      (rebind_from-NoMark (suc n) s (marked parts) h.0
        ∙ ap (λ x. s ++ x) (rebind_from-marked (suc n) parts h.1))

-- `rebind` for PostgreSQL numbers the placeholders of a query from 1 on, in their order, and leaves
-- the text between them as it is.
pub rebind-numbers :
    (first : Str) (parts : List Str)
    → NoMark first
    → AllNoMark parts
    → rebind true (first ++ marked parts) ≡ first ++ numbered 0 parts
unfolding rebind
rebind-numbers first parts h k =
    rebind_from-NoMark 0 first (marked parts) h
    ∙ ap (λ x. first ++ x) (rebind_from-marked 0 parts k)

-- the queries that are written out are those that `rebind` would make
put_query-rebind : (pgx : Bool) → put_query pgx ≡ rebind pgx (put_query false)
unfolding put_query rebind rebind_from decimal decimal_from
put_query-rebind true = refl
put_query-rebind false = refl

get_query-rebind : (pgx : Bool) → get_query pgx ≡ rebind pgx (get_query false)
unfolding get_query rebind rebind_from decimal decimal_from
get_query-rebind true = refl
get_query-rebind false = refl

-- A column cipher for the key that the environment holds.
pub record Keyed (ciphers : Ciphers) (raw : Str) (aead : Option Aead) : Type 0 where
  pub key : Str
  pub cipher : Aead
  pub decoded : ciphers.base64_decode (trim_space raw) ≡ some key
  pub sized : length key ≡ 32
  pub built : ciphers.gcm key ≡ some cipher
  pub used : aead ≡ some cipher

pub record IsConfigured (ciphers : Ciphers) (n : ℕ) (dsn raw : Str) (o : Opened ciphers)
    (schema : Schema) : Type 0 where
  pub version : o.version ≡ n
  pub migrated : IsAt n schema
  pub plaintext : raw ≡ [] → o.aead ≡ none
  pub encrypted : raw ≢ [] → Keyed ciphers raw o.aead
  pub put_text : o.put_text ≡ rebind (is_pgx dsn) (put_query false)
  pub get_text : o.get_text ≡ rebind (is_pgx dsn) (get_query false)

module _ (ciphers : Ciphers) where
  checked_cipher-Keyed :
      (raw : Str) (o : Option Str) (aead : Option Aead)
      → ciphers.base64_decode (trim_space raw) ≡ o
      → checked_cipher ciphers o ≡ some aead
      → Keyed ciphers raw aead
  unfolding checked_cipher
  checked_cipher-Keyed raw none aead d e = absurd cc
  checked_cipher-Keyed raw (some key) aead d e = elim (Option-cases (ciphers.gcm key)) [
    | inl fails ↦ absurd (ground (arith, fails, e))
    | inr (a, built) ↦ record {
      key = key;
      cipher = a;
      decoded = d;
      sized = ground (arith, built, e);
      built = built;
      used = ground (arith, built, e);
    }
  ]

  load_cipher-Keyed :
      (raw : Str) (aead : Option Aead)
      → load_cipher ciphers raw ≡ some aead
      → (raw ≡ [] → aead ≡ none) × (raw ≢ [] → Keyed ciphers raw aead)
  unfolding load_cipher
  load_cipher-Keyed [] aead e = ((λ _. ground (arith, e)), λ ne. absurd (ne refl))
  load_cipher-Keyed (c ∷ raw) aead e =
      ((λ x. absurd cc), λ _. checked_cipher-Keyed (c ∷ raw) _ aead refl e)

  with_cipher-inv :
      (pgx : Bool) (version : ℕ) (r : Option (Option Aead)) (o : Opened ciphers)
      → with_cipher ciphers pgx version r ≡ some o
      → (r ≡ some o.aead)
        × (o.version ≡ version)
        × (o.put_text ≡ put_query pgx)
        × (o.get_text ≡ get_query pgx)
  unfolding with_cipher
  with_cipher-inv pgx version none o e = absurd cc
  with_cipher-inv pgx version (some aead) o e =
      (ground (arith, e), ground (arith, e), ground (arith, e), ground (arith, e))

  -- A store that opens has run every migration, and talks to the driver with the queries that
  -- `rebind` makes. It stores plaintext only if no key is set: a key that is set is valid base64 of 32
  -- bytes, and its cipher is used. So a key that cannot be used is an error, never plaintext.
  pub open_store-IsConfigured :
      (n k : ℕ) (dsn : Str) (connects : Bool) (raw : Str) (s : Schema) (o : Opened ciphers)
      → k ≤ n
      → IsAt k s
      → (open_store ciphers n dsn connects raw s).0 ≡ some o
      → IsConfigured ciphers n dsn raw o (open_store ciphers n dsn connects raw s).1
  unfolding open_store
  open_store-IsConfigured n k dsn false raw s o le at e = absurd cc
  open_store-IsConfigured n k dsn true raw s o le at e = elim (Bool-cases (migrate n s).done) [
    | inl done ↦
        let r = migrate-Reaches n k s le at in
        let last = r.finished done in
        let set =
          with_cipher-inv (is_pgx dsn) (migrate n s).version (load_cipher ciphers raw) o
            (ground (arith, done, e)) in
        let keyed = load_cipher-Keyed raw o.aead set.0 in
        record {
          version = set.1 ∙ last.0;
          migrated = subst (λ v. IsAt v (migrate n s).schema) last.1 r.is_at;
          plaintext = keyed.0;
          encrypted = keyed.1;
          put_text = set.2 ∙ put_query-rebind (is_pgx dsn);
          get_text = set.3 ∙ get_query-rebind (is_pgx dsn);
        }
    | inr failed ↦ absurd (ground (arith, failed, e))
  ]
