-- ===== src/Store/Effects.antt =====
-- What each method of `Store` does to the tables: nothing if it returns an error, and one of three
-- pure changes if it does not.
use promptnet.Prelude.{
  ◌≡◌, ◌∙◌, refl, ap, true, false, List, ◌∷◌, Str, ◌==◌, str_eq, if◌then◌else◌, arith, Bool-cases,
  inl, inr,
}
use promptnet.Store.Crypt.{seal}
use promptnet.Store.Env.{Env}
use promptnet.Store.Exec.{ok, PromptRow, CommitRow, Db, State, pure, ◌>>◌, statement, modify}
use promptnet.Store.Hash.{hash, commit_hash}
use promptnet.Store.Keeps.{
  Ensures, Ensures-pure, Ensures_still, Ensures-modify, Ensures-bind, Ensures-given, Ensures-weaken,
  Ensures-statement, Ensures-transaction,
}
use promptnet.Store.Table.{known, default_branch, insert_commit, set_ref, put_prompt, nullable}
use promptnet.Store.Commits.{now, materialize, commit}

abbrev pub prompt_of : CommitRow → PromptRow
prompt_of row = record {
  template = row.template;
  slots = row.slots;
  version_hash = row.version_hash;
}

-- on the trunk, the row that is served
unfoldable pub serve : Str → Str → PromptRow → Db → Db
serve uri branch row db = if branch == default_branch then put_prompt uri row db else db

-- a commit, unless one of its hash is there, the branch that points at it, and on the trunk the row
-- that is served
unfoldable pub put_commit : Str → CommitRow → Db → Db
put_commit branch row db =
    serve row.uri branch (prompt_of row) (set_ref row.uri branch row.hash (insert_commit row db))

commits-put_commit :
    (branch : Str) (row : CommitRow) (db : Db)
    → (put_commit branch row db).commits
      ≡ (if known row.hash db.commits then db.commits else row ∷ db.commits)
unfolding put_commit serve put_prompt set_ref insert_commit
commits-put_commit branch row db = ground arith

-- a commit of a new hash is added to the others, and one of a known hash is not
put_commit_added :
    (branch : Str) (row : CommitRow) (before : Db) {h : Str} {after : Db}
    → h ≡ row.hash
    → after ≡ put_commit branch row before
    → known h before.commits ≡ false
    → after.commits ≡ row ∷ before.commits
put_commit_added branch row before is e new =
    ap (λ (d : Db). d.commits) e
    ∙ commits-put_commit branch row before
    ∙ ground (arith, ap (λ x. known x before.commits) is, new)

put_commit_kept :
    (branch : Str) (row : CommitRow) (before : Db) {h : Str} {after : Db}
    → h ≡ row.hash
    → after ≡ put_commit branch row before
    → known h before.commits ≡ true
    → after.commits ≡ before.commits
put_commit_kept branch row before is e old =
    ap (λ (d : Db). d.commits) e
    ∙ commits-put_commit branch row before
    ∙ ground (arith, ap (λ x. known x before.commits) is, old)

module _ (env : Env) where
  -- `stored` is a column that `seal` made of `plain`
  abbrev pub Sealed : Str → Str → Type 0
  Sealed plain stored = (s : State) × ((seal env plain s).0 ≡ ok stored)

  pub record Recorded (uri branch template : Str) (slots : List Str)
      (parent parent2 author message : Str) (before : Db) (h : Str) (after : Db) : Type 0 where
    pub row : CommitRow
    pub tables : after ≡ put_commit branch row before
    pub returned : h ≡ row.hash
    pub added : known h before.commits ≡ false → after.commits ≡ row ∷ before.commits
    pub kept : known h before.commits ≡ true → after.commits ≡ before.commits
    pub at_uri : row.uri ≡ uri
    pub template_column : Sealed template row.template
    pub slots_column : Sealed (env.marshal slots) row.slots
    pub version : row.version_hash ≡ hash env template slots
    pub identity : row.hash ≡ commit_hash env row.version_hash parent parent2 author message
    pub first_parent : row.parent ≡ nullable parent
    pub second_parent : row.parent2 ≡ nullable parent2
    pub by_author : row.author ≡ author
    pub with_message : row.message ≡ message

  db-seal : (plain : Str) (s : State) → (seal env plain s).1.db ≡ s.db
  unfolding seal
  db-seal plain s = ground arith

  pub Ensures-seal :
      {I P : Db → Type 0} (plain : Str)
      → ((d : Db) → P d → I d)
      → Ensures I P (seal env plain) (λ t d. P d × Sealed plain t)
  Ensures-seal plain keep =
      Ensures_still (seal env plain) (db-seal plain) keep (λ s t r p. (p, (s, r)))

  module _ (d₀ : Db) where
    abbrev Same : Db → Type 0
    Same d = d ≡ d₀

    Ensures-materialize :
        (uri branch h : Str) (row : PromptRow) (d₁ : Db)
        → Ensures
            (λ _. Unit)
            (λ d. d ≡ d₁)
            (do materialize uri branch row; pure h)
            (λ a d. (a ≡ h) × (d ≡ serve uri branch row d₁))
    unfolding materialize serve
    Ensures-materialize uri branch h row d₁ = elim (Bool-cases (branch == default_branch)) [
      | inl trunk ↦ rw trunk (
          Ensures-bind {0, 0} _ _
            (Ensures-bind {0, 0} _ _ (Ensures-statement (λ d p. tt)) (λ _.
              Ensures-modify {Q = λ _ d. d ≡ put_prompt uri row d₁} _
                (λ d p. ap (put_prompt uri row) p)))
            (λ _. Ensures-pure h (λ d p. (refl, p))))
      | inr other ↦ rw other (
          Ensures-bind {0, 0} _ _ (Ensures-pure {Q = λ _ d. d ≡ d₁} tt (λ d p. p))
            (λ _. Ensures-pure h (λ d p. (refl, p))))
    ]

    -- the statements of the transaction
    Ensures_writes :
        (branch : Str) (row : CommitRow)
        → Ensures
            (λ _. Unit)
            Same
            (do
              statement
              modify (insert_commit row)
              statement
              modify (set_ref row.uri branch row.hash)
              materialize row.uri branch (prompt_of row)
              pure row.hash)
            (λ h d. (h ≡ row.hash) × (d ≡ put_commit branch row d₀))
    unfolding put_commit
    Ensures_writes branch row = Ensures-bind {0, 0} _ _ (Ensures-statement (λ d p. tt)) λ _.
        Ensures-bind {0, 0} _ _
          (Ensures-modify {Q = λ _ d. d ≡ insert_commit row d₀} _ (λ d p. ap (insert_commit row) p))
          λ _. Ensures-bind {0, 0} _ _ (Ensures-statement (λ d p. tt)) λ _.
            Ensures-bind {0, 0} _ _
              (Ensures-modify
                {Q = λ _ d. d ≡ set_ref row.uri branch row.hash (insert_commit row d₀)} _
                (λ d p. ap (set_ref row.uri branch row.hash) p))
              λ _. Ensures-materialize row.uri branch row.hash (prompt_of row) _

    pub commit-Ensures :
        (uri branch template : Str) (slots : List Str) (parent parent2 author message : Str)
        → Ensures Same Same
            (commit env uri branch template slots parent parent2 author message)
            (Recorded uri branch template slots parent parent2 author message d₀)
    unfolding commit
    commit-Ensures uri branch template slots parent parent2 author message =
        Ensures-bind {0, 0} _ _ (Ensures-seal template (λ d p. p)) λ t. Ensures-given _ λ ht.
          Ensures-bind {0, 0} _ _ (Ensures-seal (env.marshal slots) (λ d p. p)) λ l.
            Ensures-given _ λ hl.
              Ensures-bind {0, 0} _ _ (Ensures_still now (λ s. refl) (λ d p. p) (λ s a r p. p))
                λ at.
                  Ensures-transaction _ (λ d p. p)
                    (Ensures-weaken _
                      (λ h d p. record {
                        row = _;
                        tables = p.1;
                        returned = p.0;
                        added = put_commit_added branch _ d₀ p.0 p.1;
                        kept = put_commit_kept branch _ d₀ p.0 p.1;
                        at_uri = refl;
                        template_column = ht;
                        slots_column = hl;
                        version = refl;
                        identity = refl;
                        first_parent = refl;
                        second_parent = refl;
                        by_author = refl;
                        with_message = refl;
                      })
                      (Ensures_writes branch (record {
                        hash =
                            commit_hash env (hash env template slots) parent parent2 author message;
                        uri = uri;
                        template = t;
                        slots = l;
                        version_hash = hash env template slots;
                        parent = nullable parent;
                        parent2 = nullable parent2;
                        author = author;
                        message = message;
                        created_at = at;
                      })))
