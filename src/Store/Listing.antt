-- ===== src/Store/Listing.antt =====
-- `escapeLike`, `List` and `Dump`, over what SQL documents of LIKE and ORDER BY.
pub mod Prefix
pub mod Example
use promptnet.Prelude.{
  ℕ, ◌≡◌, ◌↔◌, Bool, true, List, [], ◌∷◌, ◌++◌, Str, ◌==◌, nat_eq, str_eq, if◌then◌else◌, arith,
  map, codes,
}
use promptnet.Prelude.Keys.{contains}
use promptnet.Store.Env.{Env}
use promptnet.Store.Exec.{
  Result, ok, err, PromptRow, Exec, statement, read_db, lift, pure, ◌>>=◌, ◌>>◌,
}
use promptnet.Store.Table.{Prompt, decode_prompt}

-- one byte of the replacer's input
unfoldable pub escape_byte : ℕ → Str
escape_byte c =
    if c == b'\\'
    then b'\\' ∷ b'\\' ∷ []
    else if c == b'%'
    then b'\\' ∷ b'%' ∷ []
    else if c == b'_'
    then b'\\' ∷ b'_' ∷ []
    else c ∷ []

unfoldable pub escape_like : Str → Str
unfolding escape_byte
escape_like [] = []
escape_like (c ∷ s) = escape_byte c ++ escape_like s

-- What a pattern means under ESCAPE '\'.
pub data Token : Type 0 where
  literal : ℕ → Token
  any_one any_run : Token

unfoldable pub tokens : Str → List Token
tokens [] = []
tokens (c ∷ []) =
    if c == b'%' then any_run ∷ [] else if c == b'_' then any_one ∷ [] else literal c ∷ []
tokens (c ∷ d ∷ p) =
    let escaped = tokens p in
    let rest = tokens (d ∷ p) in
    if c == b'\\'
    then literal d ∷ escaped
    else if c == b'%'
    then any_run ∷ rest
    else if c == b'_'
    then any_one ∷ rest
    else literal c ∷ rest

-- `same` is the database's equality of letters: SQLite's LIKE ignores the case of ASCII letters.
pub data Matches (same : ℕ → ℕ → Bool) : List Token → Str → Type 0 where
  end : Matches same [] []
  one :
      {c d : ℕ} {p : List Token} {t : Str}
      → same c d ≡ true
      → Matches same p t
      → Matches same (literal c ∷ p) (d ∷ t)
  stop : {p : List Token} {t : Str} → Matches same p t → Matches same (any_run ∷ p) t
  more :
      {d : ℕ} {p : List Token} {t : Str}
      → Matches same (any_run ∷ p) t
      → Matches same (any_run ∷ p) (d ∷ t)

abbrev pub NoAnyOne : List Token → Type 0
NoAnyOne [] = Unit
NoAnyOne (literal c ∷ p) = NoAnyOne p
NoAnyOne (any_run ∷ p) = NoAnyOne p
NoAnyOne (any_one ∷ p) = ⊥

abbrev pub keys : List (Str × PromptRow) → List Str
keys = map (λ e. e.0)

-- `like pattern text`, and the rows in the order of the primary key
pub record Sql : Type 0 where
  pub like : Str → Str → Bool
  pub order_by_uri : List (Str × PromptRow) → List (Str × PromptRow)

pub record SqlLaws (sql : Sql) (same : ℕ → ℕ → Bool) : Type 0 where
  pub like_iff :
      (p t : Str) → NoAnyOne (tokens p) → (sql.like p t ≡ true) ↔ Matches same (tokens p) t
  pub contains-order_by_uri :
      (l : List (Str × PromptRow)) (u : Str)
      → contains (keys (sql.order_by_uri l)) u ≡ contains (keys l) u

pub record Entry : Type 0 where
  pub uri : Str
  pub version_hash : Str

unfoldable pub select : (Str → Bool) → List (Str × PromptRow) → List (Str × PromptRow)
select p [] = []
select p ((u, row) ∷ l) = let rest = select p l in if p u then (u, row) ∷ rest else rest

unfoldable pub entries : List (Str × PromptRow) → List Entry
entries [] = []
entries ((u, row) ∷ l) = record { uri = u; version_hash = row.version_hash } ∷ entries l

-- `List`
unfoldable pub list : Sql → Str → Exec (List Entry)
unfolding entries select
list sql prefix = do
  statement
  db ← read_db
  pure (entries (sql.order_by_uri (select (sql.like (escape_like prefix ++ codes "%")) db.prompts)))

-- the loop of `Dump`
unfoldable pub decode_all : Env → List (Str × PromptRow) → Result (List Prompt)
decode_all env [] = ok []
decode_all env ((u, row) ∷ l) = elim (decode_prompt env u row) [
  | err e ↦ err e
  | ok p ↦ elim (decode_all env l) [ err e ↦ err e | ok ps ↦ ok (p ∷ ps) ]
]

unfoldable pub dump : Env → Sql → Exec (List Prompt)
unfolding decode_all
dump env sql = do statement; db ← read_db; lift (decode_all env (sql.order_by_uri db.prompts))
