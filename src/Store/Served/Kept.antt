-- ===== src/Store/Served/Kept.antt =====
-- What the writes of a commit leave in the tables.
use promptnet.Prelude.{
  ◌≡◌, ap, ◌∙◌, ◌&&◌, none, some, Str, ◌==◌, str_eq, equal, equal_iff, if◌then◌else◌, arith,
  Bool-cases, inl, inr,
}
use promptnet.Prelude.Assoc
use promptnet.Prelude.Assoc.{get-set}
use promptnet.Store.Effects.{put_commit, serve, prompt_of}
use promptnet.Store.Exec.{RefKey, ref_eq, ref_beq, PromptRow, CommitRow, Db}
use promptnet.Store.Env.{Env}
use promptnet.Store.History.{get_ref-set_ref, get_ref-insert_commit, known_of_find, find_of_known}
use promptnet.Store.Table.{
  read_prompt, default_branch, find, known, insert_commit, set_ref, get_ref, put_prompt,
}

module _ (uri branch : Str) (row : PromptRow) (db : Db) where
  pub get-serve :
      (j : Str)
      → Assoc.get j (serve uri branch row db).prompts
        ≡ (if (branch == default_branch) && (uri == j) then some row else Assoc.get j db.prompts)
  unfolding serve put_prompt
  get-serve j = ground (arith, get-set uri j row db.prompts)

  pub get_ref-serve : (u b : Str) → get_ref u b (serve uri branch row db) ≡ get_ref u b db
  unfolding serve put_prompt get_ref
  get_ref-serve u b = ground arith

  pub commits-serve : (serve uri branch row db).commits ≡ db.commits
  unfolding serve put_prompt
  commits-serve = ground arith

abbrev pub at : Str → Str → RefKey
at uri branch = record { uri = uri; branch = branch }

module _ (branch : Str) (row : CommitRow) (db : Db) where
  pub get-put_commit :
      (j : Str)
      → Assoc.get j (put_commit branch row db).prompts ≡ (
          if (branch == default_branch) && (row.uri == j)
          then some (prompt_of row)
          else Assoc.get j db.prompts)
  unfolding put_commit set_ref insert_commit
  get-put_commit j = ground (
    arith,
    get-serve row.uri branch (prompt_of row)
        (set_ref row.uri branch row.hash (insert_commit row db)) j,
  )

  pub get_ref-put_commit :
      (u b : Str)
      → get_ref u b (put_commit branch row db)
        ≡ (if ref_beq (at row.uri branch) (at u b) then some row.hash else get_ref u b db)
  unfolding put_commit
  get_ref-put_commit u b =
      get_ref-serve row.uri branch (prompt_of row) _ u b
      ∙ get_ref-set_ref row.uri branch row.hash u b (insert_commit row db)
      ∙ ground (arith, get_ref-insert_commit u b row db)

  find-insert_commit_old :
      (h : Str) (old : CommitRow)
      → find h db.commits ≡ some old
      → find h (insert_commit row db).commits ≡ some old
  unfolding insert_commit find
  find-insert_commit_old h old e = elim (Bool-cases (equal row.hash h)) [
    | inl same ↦ ground (
      arith,
      known_of_find h db.commits old e,
      ap (λ (x : Str). known x db.commits) ((equal_iff row.hash h).0 same),
    )
    | inr other ↦ ground (arith, e)
  ]

  -- a commit of a new hash is found
  pub find-put_commit_new :
      find row.hash db.commits ≡ none → find row.hash (put_commit branch row db).commits ≡ some row
  unfolding put_commit set_ref insert_commit find
  find-put_commit_new new =
      ap (find row.hash) (
        commits-serve row.uri branch (prompt_of row)
          (set_ref row.uri branch row.hash (insert_commit row db)))
      ∙ elim (Bool-cases (known row.hash db.commits)) [
        | inl old ↦ absurd (ground (arith, (find_of_known row.hash db.commits old).1, new))
        | inr fresh ↦ ground (arith, fresh, equal_iff row.hash row.hash)
      ]

  -- a commit is never overwritten
  pub find-put_commit :
      (h : Str) (old : CommitRow)
      → find h db.commits ≡ some old
      → find h (put_commit branch row db).commits ≡ some old
  unfolding put_commit set_ref
  find-put_commit h old e =
      ap (find h) (
        commits-serve row.uri branch (prompt_of row)
          (set_ref row.uri branch row.hash (insert_commit row db)))
      ∙ find-insert_commit_old h old e

pub read_prompt-eq :
    (env : Env) (j : Str) (d e : Db)
    → Assoc.get j d.prompts ≡ Assoc.get j e.prompts
    → read_prompt env j d ≡ read_prompt env j e
unfolding read_prompt
read_prompt-eq env j d e p = ground arith
