-- ===== src/Store/Commits.antt =====
-- The methods of `Store` on prompts, commits and branches.
use promptnet.Prelude.{
  ℕ, zero, suc, none, some, List, [], ◌∷◌, ◌++◌, Str, ◌==◌, str_eq, if◌then◌else◌, codes, length,
}
use promptnet.Store.Crypt.{seal}
use promptnet.Store.Env.{Env}
use promptnet.Store.Exec.{
  Result, ok, err, not_found, branch_not_found, constraint, diverged, PromptRow, Exec, pure, raise,
  lift, ◌>>=◌, ◌>>◌, statement, read_db, modify, transaction,
}
use promptnet.Store.Hash.{hash, commit_hash}
use promptnet.Store.Table.{
  default_branch, Prompt, Commit, insert_commit, set_ref, get_ref, put_prompt, nullable,
  read_prompt, read_commit, read_tip,
}

unfoldable pub tip : Str → Str → Exec Str
tip uri branch = do statement; db ← read_db; lift (read_tip uri branch db)

abbrev pub Unit0 : Type 0
Unit0 = Unit

abbrev pub now : Exec ℕ
now s = (ok s.clock, s)

-- the statement on `prompts` that keeps the served HEAD in step with the trunk
unfoldable pub materialize : Str → Str → PromptRow → Exec Unit0
materialize uri branch row =
    if branch == default_branch then (do statement; modify (put_prompt uri row)) else pure tt

-- `tip`, with the error that `Commit` takes for a branch with no commit yet
unfoldable pub parent_or_root : Result Str → Result Str
parent_or_root (ok h) = ok h
parent_or_root (err branch_not_found) = ok []
parent_or_root (err e) = err e

-- `Branch`: the insert has no ON CONFLICT, so a branch that exists is an error
unfoldable pub create_ref : Str → Str → Str → Exec Unit0
create_ref uri name src = do
  statement
  db ← read_db
  elim (get_ref uri name db) [ some h ↦ raise constraint | none ↦ modify (set_ref uri name src) ]

unfoldable pub create_branch : Str → Str → Str → Exec Unit0
unfolding create_ref
create_branch uri name from = do src ← tip uri from; create_ref uri name src

unfoldable pub merge_message : Str → Str → Str → Str
merge_message message from into =
    if message == [] then codes "merge " ++ (from ++ (codes " into " ++ into)) else message

abbrev pub check_uri : Str → Commit → Exec Commit
check_uri uri c = if c.uri == uri then pure c else raise not_found

module _ (env : Env) where
  unfoldable pub get : Str → Exec Prompt
  get uri = do statement; db ← read_db; lift (read_prompt env uri db)

  unfoldable pub get_commit : Str → Exec Commit
  get_commit h = do statement; db ← read_db; lift (read_commit env h db)

  unfoldable pub put : Str → Str → List Str → Exec Unit0
  put uri template slots = do
    t ← seal env template
    l ← seal env (env.marshal slots)
    statement
    modify (
        put_prompt uri (record { template = t; slots = l; version_hash = hash env template slots }))

  -- `commit`: the explicit parents are "" where there is none
  unfoldable pub commit : Str → Str → Str → List Str → Str → Str → Str → Str → Exec Str
  unfolding materialize
  commit uri branch template slots parent parent2 author message = do
    let vh = hash env template slots
    let h = commit_hash env vh parent parent2 author message
    t ← seal env template
    l ← seal env (env.marshal slots)
    created_at ← now
    transaction (do
      statement
      modify (
          insert_commit (record {
            hash = h;
            uri = uri;
            template = t;
            slots = l;
            version_hash = vh;
            parent = nullable parent;
            parent2 = nullable parent2;
            author = author;
            message = message;
            created_at = created_at;
          }))
      statement
      modify (set_ref uri branch h)
      materialize uri branch (record { template = t; slots = l; version_hash = vh })
      pure h)

  -- `Commit`
  unfoldable pub commit_on : Str → Str → Str → List Str → Str → Str → Exec Str
  unfolding parent_or_root
  commit_on uri branch template slots author message = do
    parent ← (λ s. (parent_or_root (tip uri branch s).0, (tip uri branch s).1))
    commit uri branch template slots parent [] author message

  -- `Merge`: take theirs
  unfoldable pub merge : Str → Str → Str → Str → Str → Exec Str
  unfolding merge_message
  merge uri into from author message = do
    dst ← tip uri into
    src_hash ← tip uri from
    src ← get_commit src_hash
    commit uri into src.template src.slots dst src_hash author (merge_message message from into)

  unfoldable pub by_hash : Str → Str → Exec Commit
  by_hash uri ref = do c ← get_commit ref; check_uri uri c

  -- what `Resolve` does with the outcome of `tip`
  unfoldable pub resolve_tip : Str → Str → Result Str → Exec Commit
  unfolding by_hash
  resolve_tip uri ref (ok h) = get_commit h
  resolve_tip uri ref (err branch_not_found) = by_hash uri ref
  resolve_tip uri ref (err e) = raise e

  unfoldable pub resolve : Str → Str → Exec Commit
  unfolding resolve_tip
  resolve uri ref s = resolve_tip uri ref (tip uri ref s).0 (tip uri ref s).1

  unfoldable pub reseal : Str → Str → Commit → Exec Unit0
  reseal uri branch c =
      if branch == default_branch
      then (do
        t ← seal env c.template
        l ← seal env (env.marshal c.slots)
        statement
        modify (put_prompt uri (record { template = t; slots = l; version_hash = c.version_hash })))
      else pure tt

  unfoldable pub set_branch : Str → Str → Str → Exec Commit
  unfolding reseal
  set_branch uri branch h = do
    found ← get_commit h
    c ← check_uri uri found
    transaction (do statement; modify (set_ref uri branch h); reseal uri branch c; pure c)

  -- the loop of `Log`, over `h` and `out`
  unfoldable pub log_from : ℕ → Str → List Commit → Exec (List Commit)
  log_from zero h out = raise diverged
  log_from (suc fuel) h out =
      if h == [] then pure out else (do c ← get_commit h; log_from fuel c.parent (out ++ c ∷ []))

  -- one round for each commit, and one to leave
  unfoldable pub log : Str → Str → Exec (List Commit)
  log uri branch = do h ← tip uri branch; db ← read_db; log_from (suc (length db.commits)) h []
