-- ===== src/Store/Moves.antt =====
-- What a commit, a merge, a rollback and a new branch leave served as it was, whatever the content
-- of the columns: other prompts, and on another branch than the trunk all of them.
use promptnet.Prelude.{
  ◌≡◌, ◌≢◌, refl, ap, ◌∙◌, false, List, [], Str, ◌==◌, str_eq, equal_iff, ◌&&◌, arith, ◌⊎◌, inl,
  inr,
}
use promptnet.Prelude.Assoc
use promptnet.Store.Commits.{commit_on, create_branch, merge, set_branch}
use promptnet.Store.Effects.{Recorded}
use promptnet.Store.Env.{Env}
use promptnet.Store.Exec.{ok, Db, State}
use promptnet.Store.Keeps.{Result-cases}
use promptnet.Store.Methods.{
  commit_on-Ensures, merge-Ensures, set_branch-Ensures, create_branch-Ensures,
}
use promptnet.Store.Served.Kept.{get-serve, get-put_commit, read_prompt-eq}
use promptnet.Store.Table.{Commit, default_branch, set_ref, read_prompt}

-- what a change of a branch leaves as it was
abbrev pub Moves : Env → Str → Str → Db → Db → Type 0
Moves env uri branch before after =
    (j : Str)
    → (branch ≢ default_branch) ⊎ (uri ≢ j)
    → read_prompt env j after ≡ read_prompt env j before

elsewhere :
    (uri branch j : Str)
    → (branch ≢ default_branch) ⊎ (uri ≢ j)
    → ((branch == default_branch) && (uri == j)) ≡ false
elsewhere uri branch j (inl ne) = ground (arith, equal_iff branch default_branch, ne)
elsewhere uri branch j (inr ne) = ground (arith, equal_iff uri j, ne)

module _ (env : Env) where
  Recorded-Moves :
      (uri branch template : Str) (slots : List Str) (parent parent2 author message h : Str)
      (before after : Db)
      → Recorded env uri branch template slots parent parent2 author message before h after
      → Moves env uri branch before after
  Recorded-Moves uri branch template slots parent parent2 author message h before after a j ne =
      read_prompt-eq env j after before (
        ap (λ (d : Db). Assoc.get j d.prompts) a.tables
        ∙ ground (arith, get-put_commit branch a.row before j, a.at_uri, elsewhere uri branch j ne))

  pub commit_on-Moves :
      (uri branch template : Str) (slots : List Str) (author message h : Str) (s : State)
      → (commit_on env uri branch template slots author message s).0 ≡ ok h
      → Moves env uri branch s.db (commit_on env uri branch template slots author message s).1.db
  commit_on-Moves uri branch template slots author message h s e =
      let done =
        (commit_on-Ensures env s.db uri branch template slots author message).gives s h refl e in
      Recorded-Moves uri branch template slots done.parent [] author message h s.db _ done.recorded

  pub merge-Moves :
      (uri into from author message h : Str) (s : State)
      → (merge env uri into from author message s).0 ≡ ok h
      → Moves env uri into s.db (merge env uri into from author message s).1.db
  merge-Moves uri into from author message h s e =
      let done = (merge-Ensures env s.db uri into from author message).gives s h refl e in
      Recorded-Moves uri into done.src.template done.src.slots done.dst done.src_hash author _ h
        s.db _ done.recorded

  pub set_branch-Moves :
      (uri branch h : Str) (c : Commit) (s : State)
      → (set_branch env uri branch h s).0 ≡ ok c
      → Moves env uri branch s.db (set_branch env uri branch h s).1.db
  unfolding set_ref
  set_branch-Moves uri branch h c s e j ne =
      let done = (set_branch-Ensures env s.db uri branch h).gives s c refl e in
      read_prompt-eq env j _ s.db (
        ap (λ (d : Db). Assoc.get j d.prompts) done.tables
        ∙ ground (
          arith,
          get-serve uri branch done.row (set_ref uri branch h s.db) j,
          elsewhere uri branch j ne,
        ))

  pub create_branch-reads :
      (uri name from j : Str) (s : State)
      → read_prompt env j (create_branch uri name from s).1.db ≡ read_prompt env j s.db
  unfolding set_ref
  create_branch-reads uri name from j s = elim (Result-cases (create_branch uri name from s).0) [
    | inr (x, e) ↦
        ap (read_prompt env j) ((create_branch-Ensures s.db uri name from).fails s x refl e)
    | inl (a, e) ↦
        let done = (create_branch-Ensures s.db uri name from).gives s a refl e in
        read_prompt-eq env j _ s.db (ap (λ (d : Db). Assoc.get j d.prompts) done.tables)
  ]
