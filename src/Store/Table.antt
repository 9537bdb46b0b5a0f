-- ===== src/Store/Table.antt =====
-- The statements on the tables, and the rows as the program reads them.
use promptnet.Prelude.{
  ℕ, ◌≡◌, Bool, false, Option, none, some, List, [], ◌∷◌, Str, ◌==◌, ◌||◌, str_eq, if◌then◌else◌,
  codes, arith, Option-cases, inl, inr,
}
use promptnet.Prelude.Assoc
use promptnet.Store.Crypt.{unseal}
use promptnet.Store.Env.{Env}
use promptnet.Store.Exec.{
  Result, ok, err, bad_column, not_found, branch_not_found, ref_eq, PromptRow, CommitRow, Db,
}

abbrev pub default_branch : Str
default_branch = codes "main"

-- `Prompt` and `Commit` of store.go
pub record Prompt : Type 0 where
  pub uri : Str
  pub template : Str
  pub slots : List Str
  pub version_hash : Str

pub record Commit : Type 0 where
  pub hash : Str
  pub uri : Str
  pub template : Str
  pub slots : List Str
  pub version_hash : Str
  pub parent : Str
  pub parent2 : Str
  pub author : Str
  pub message : Str
  pub created_at : ℕ

-- SELECT … FROM commits WHERE hash=?
unfoldable pub find : Str → List CommitRow → Option CommitRow
find h [] = none
find h (c ∷ rest) = if c.hash == h then some c else find h rest

unfoldable pub known : Str → List CommitRow → Bool
known h [] = false
known h (c ∷ rest) = c.hash == h || known h rest

-- INSERT INTO commits … ON CONFLICT(hash) DO NOTHING
unfoldable pub insert_commit : CommitRow → Db → Db
insert_commit row db =
    if known row.hash db.commits then db else record db { commits = row ∷ db.commits }

-- INSERT INTO refs … ON CONFLICT(uri,branch) DO UPDATE
unfoldable pub set_ref : Str → Str → Str → Db → Db
set_ref uri branch hash db = record db {
  refs = Assoc.set (record { uri = uri; branch = branch }) hash db.refs;
}

unfoldable pub get_ref : Str → Str → Db → Option Str
get_ref uri branch db = Assoc.get (record { uri = uri; branch = branch }) db.refs

-- the upsert of `putQuery`
unfoldable pub put_prompt : Str → PromptRow → Db → Db
put_prompt uri row db = record db { prompts = Assoc.set uri row db.prompts }

-- sql.NullString.String
abbrev pub null_string : Option Str → Str
null_string none = []
null_string (some s) = s

-- NULL, not "", for absent parents
abbrev pub nullable : Str → Option Str
nullable [] = none
nullable (c ∷ s) = some (c ∷ s)

module _ (env : Env) where
  unfoldable pub slots_of : Result Str → Result (List Str)
  slots_of (err e) = err e
  slots_of (ok text) = elim (env.unmarshal text) [ none ↦ err bad_column | some l ↦ ok l ]

  unfoldable pub with_columns :
      {A : Type 0} → (Str → List Str → A) → Result Str → Result Str → Result A
  with_columns make (err e) slots = err e
  with_columns make (ok template) slots = elim (slots_of slots) [
    | err e ↦ err e
    | ok l ↦ ok (make template l)
  ]

  -- behind the `Scan` of `Get` and `Dump`
  unfoldable pub decode_prompt : Str → PromptRow → Result Prompt
  unfolding with_columns slots_of
  decode_prompt uri row =
      with_columns
        (λ template slots. record {
          uri = uri;
          template = template;
          slots = slots;
          version_hash = row.version_hash;
        })
        (unseal env row.template) (unseal env row.slots)

  -- `scanCommit`
  unfoldable pub decode_commit : CommitRow → Result Commit
  unfolding with_columns slots_of
  decode_commit row =
      with_columns
        (λ template slots. record {
          hash = row.hash;
          uri = row.uri;
          template = template;
          slots = slots;
          version_hash = row.version_hash;
          parent = null_string row.parent;
          parent2 = null_string row.parent2;
          author = row.author;
          message = row.message;
          created_at = row.created_at;
        })
        (unseal env row.template) (unseal env row.slots)

  -- what a query finds in the tables, decoded
  unfoldable pub read_prompt : Str → Db → Result Prompt
  unfolding decode_prompt
  read_prompt uri db = elim (Assoc.get uri db.prompts) [
    | none ↦ err not_found
    | some row ↦ decode_prompt uri row
  ]

  unfoldable pub read_commit : Str → Db → Result Commit
  unfolding decode_commit
  read_commit h db = elim (find h db.commits) [
    | none ↦ err not_found
    | some row ↦ decode_commit row
  ]

unfoldable pub read_tip : Str → Str → Db → Result Str
read_tip uri branch db = elim (get_ref uri branch db) [
  | none ↦ err branch_not_found
  | some h ↦ ok h
]

module _ (env : Env) where
  pub read_commit-find :
      (h : Str) (db : Db) (row : CommitRow)
      → find h db.commits ≡ some row
      → read_commit env h db ≡ decode_commit env row
  unfolding read_commit
  read_commit-find h db row e = ground arith

  pub read_prompt-get :
      (uri : Str) (db : Db) (row : PromptRow)
      → Assoc.get uri db.prompts ≡ some row
      → read_prompt env uri db ≡ decode_prompt env uri row
  unfolding read_prompt
  read_prompt-get uri db row e = ground arith

  pub read_prompt-inv :
      (uri : Str) (db : Db) (p : Prompt)
      → read_prompt env uri db ≡ ok p
      → (row : PromptRow) × (Assoc.get uri db.prompts ≡ some row)
  unfolding read_prompt
  read_prompt-inv uri db p e = elim (Option-cases (Assoc.get uri db.prompts)) [
    | inl nothing ↦ absurd (ground arith)
    | inr (row, found) ↦ (row, found)
  ]

  pub read_commit-inv :
      (h : Str) (db : Db) (c : Commit)
      → read_commit env h db ≡ ok c
      → (row : CommitRow) × (find h db.commits ≡ some row)
  unfolding read_commit
  read_commit-inv h db c e = elim (Option-cases (find h db.commits)) [
    | inl nothing ↦ absurd (ground arith)
    | inr (row, found) ↦ (row, found)
  ]
