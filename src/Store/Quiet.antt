-- ===== src/Store/Quiet.antt =====
-- Calls on a database that fails no statement.
use promptnet.Prelude.{
  ◌≡◌, ◌≢◌, inl, inr, Option-cases, refl, sym, ap, ◌∙◌, none, some, List, [], Str, str_eq,
  equal_iff, arith,
}
use promptnet.Store.Commits.{tip, get, commit_on, commit, set_branch, get_commit, materialize}
use promptnet.Store.Crypt.{seal}
use promptnet.Store.Env.{Env}
use promptnet.Store.Exec.{
  ok, err, not_found, branch_not_found, Db, State, statement, next_io, transaction, conclude,
  finish, ◌>>=◌, continue, read_db, lift,
}
use promptnet.Store.Hash.{hash, commit_hash}
use promptnet.Store.Log.{tip_quiet, statement_quiet}
use promptnet.Store.Methods.{commit_on-Ensures}
use promptnet.Store.Served.Kept.{find-put_commit}
use promptnet.Store.Table.{
  Commit, find, get_ref, read_tip, read_commit, read_commit-find, read_commit-inv, read_prompt,
}

module _ (env : Env) where
  commit_quiet :
      (uri branch template : Str) (slots : List Str) (parent parent2 author message : Str)
      (s : State)
      → s.io ≡ []
      → ((commit env uri branch template slots parent parent2 author message s).0
          ≡ ok (commit_hash env (hash env template slots) parent parent2 author message))
        × ((commit env uri branch template slots parent parent2 author message s).1.io ≡ [])
  unfolding commit materialize transaction conclude finish statement next_io seal
  commit_quiet uri branch template slots parent parent2 author message s e = ground arith

  -- the first commit on a branch has no parent
  first_commit :
      (uri branch template : Str) (slots : List Str) (author message : Str) (s : State)
      → s.io ≡ []
      → get_ref uri branch s.db ≡ none
      → ((commit_on env uri branch template slots author message s).0
          ≡ ok (commit_hash env (hash env template slots) [] [] author message))
        × ((commit_on env uri branch template slots author message s).1.io ≡ [])
  unfolding commit_on
  first_commit uri branch template slots author message s e fresh =
      let missing : read_tip uri branch s.db ≡ err branch_not_found =
        unfold read_tip in ground arith in
      let at_tip = tip_quiet uri branch s e ∙ ap (λ r. (r, s)) missing in
      rw at_tip (commit_quiet uri branch template slots [] [] author message s e)

  foreign_rollback :
      (uri branch h : Str) (c : Commit) (s : State)
      → s.io ≡ []
      → read_commit env h s.db ≡ ok c
      → c.uri ≢ uri
      → (set_branch env uri branch h s).0 ≡ err not_found
  unfolding set_branch get_commit statement next_io
  foreign_rollback uri branch h c s e found other = ground (arith, equal_iff c.uri uri)

  -- `CommitHash` digests no URI, so the first commits of two prompts with the same content, author
  -- and message are one row, which belongs to the prompt that came first. Whoever then commits that
  -- content as the first commit of another prompt is given a hash to which this prompt cannot be
  -- rolled back: `SetBranch` answers that there is no such commit, for every branch.
  pub shared_first_commit :
      (uri branch template : Str) (slots : List Str) (author message : Str) (c : Commit) (s : State)
      → s.io ≡ []
      → get_ref uri branch s.db ≡ none
      → read_commit env (commit_hash env (hash env template slots) [] [] author message) s.db ≡ ok c
      → c.uri ≢ uri
      → (h : Str) × ((commit_on env uri branch template slots author message s).0 ≡ ok h)
        × ((b : Str)
            → (set_branch env uri b h
                (commit_on env uri branch template slots author message s).1).0
              ≡ err not_found)
  shared_first_commit uri branch template slots author message c s e fresh old other =
      let h = commit_hash env (hash env template slots) [] [] author message in
      let run = first_commit uri branch template slots author message s e fresh in
      let after = (commit_on env uri branch template slots author message s).1 in
      let (row, found) = read_commit-inv env h s.db c old in
      let a =
        ((commit_on-Ensures env s.db uri branch template slots author message).gives s h refl
          run.0).recorded in
      let kept : find h after.db.commits ≡ some row =
        ap (λ (d : Db). find h d.commits) a.tables
        ∙ find-put_commit branch a.row s.db h row found in
      let still =
        read_commit-find env h after.db row kept
        ∙ sym (read_commit-find env h s.db row found)
        ∙ old in
      (h, run.0, λ b. foreign_rollback uri b h c after run.1 still other)

pub get_still :
    (env : Env) (uri : Str) (s : State) → s.io ≡ [] → get env uri s ≡ (read_prompt env uri s.db, s)
unfolding get
get_still env uri s e =
    ap (λ x. continue x.0 (λ _. read_db >>= λ db. lift (read_prompt env uri db)) x.1)
      (statement_quiet s e)

pub commit_on_quiet :
    (env : Env) (uri branch template : Str) (slots : List Str) (author message : Str) (s : State)
    → s.io ≡ []
    → (h : Str) × ((commit_on env uri branch template slots author message s).0 ≡ ok h)
      × ((commit_on env uri branch template slots author message s).1.io ≡ [])
unfolding commit_on read_tip
commit_on_quiet env uri branch template slots author message s e =
    elim (Option-cases (get_ref uri branch s.db)) [
      | inl fresh ↦
          let run = first_commit env uri branch template slots author message s e fresh in
          (_, run.0, run.1)
      | inr (h, found) ↦
          let at_tip : tip uri branch s ≡ (ok h, s) =
            tip_quiet uri branch s e ∙ ground (arith, found) in
          let run = commit_quiet env uri branch template slots h [] author message s e in
          (
            commit_hash env (hash env template slots) h [] author message,
            rw at_tip run.0,
            rw at_tip run.1,
          )
    ]
