-- ===== src/Server/Publish/Succeeds.antt =====
-- A publish on the trunk that succeeds.
use promptnet.Prelude.{
  ◌≡◌, ◌≢◌, refl, ap, ◌∙◌, true, Option, none, some, List, [], Str, str_eq, equal, arith,
}
use promptnet.Semdiff.Float.{Float}
use promptnet.Server.Auth.{Code, Reply, ok, err, Ctx, authorized, may_write, scope_of}
use promptnet.Server.Handlers.{
  Wiring, commit_stored, publish_commit, publish_change, publish_valid, publish_checked,
  publish_prompt, branch_or, head_change,
}
use promptnet.Server.Publish.Labels.{GivesVectors, head_change_calm}
use promptnet.Server.Serve.{Label, Node, guard}
use promptnet.Store.Commits.{get, commit_on}
use promptnet.Store.Env.{Env}
use promptnet.Store.Exec.{Result, ok, err, State}
use promptnet.Store.Hash.{hash}
use promptnet.Store.Quiet.{get_still, commit_on_quiet}
use promptnet.Store.Table.{default_branch}
use promptnet.Validate.{prompt}

module _ (env : Env) (fl : Float) (wiring : Wiring fl) where
  commit_stored_ok :
      (uri h c : Str) (label : Label) (r : Result Str) (s : Node)
      → r ≡ ok c
      → ((commit_stored env fl wiring uri default_branch h label r s).0 ≡ ok h)
        × ((commit_stored env fl wiring uri default_branch h label r s).1.store ≡ s.store)
  unfolding commit_stored equal
  commit_stored_ok uri h c label (err x) s e = absurd (ground (arith, e))
  commit_stored_ok uri h c label (ok v) s e = (refl, refl)

  publish_change_quiet :
      (ctx : Ctx) (uri template : Str) (slots : List Str) (message : Str) (o : Option (Reply Label))
      (s : Node)
      → ((c : Code) → o ≢ some (err c))
      → s.store.io ≡ []
      → ((publish_change env fl wiring ctx uri template slots message o s).0
          ≡ ok (hash env template slots))
        × ((publish_change env fl wiring ctx uri template slots message o s).1.store.io ≡ [])
  unfolding publish_change publish_commit
  publish_change_quiet ctx uri template slots message none s calm quiet = (refl, quiet)
  publish_change_quiet ctx uri template slots message (some (err c)) s calm quiet =
      absurd (calm c refl)
  publish_change_quiet ctx uri template slots message (some (ok label)) s calm quiet =
      let run = commit_on env uri default_branch template slots (scope_of ctx) message s.store in
      let (c, done, still) =
        commit_on_quiet env uri default_branch template slots (scope_of ctx) message s.store
          quiet in
      let (answer, store) =
        commit_stored_ok uri (hash env template slots) c label run.0 (record s { store = run.1 })
          done in
      (answer, ap (λ (x : State). x.io) store ∙ still)

  publish_valid_quiet :
      (ctx : Ctx) (uri template : Str) (slots : List Str) (message : Str) (s : Node)
      → GivesVectors fl wiring
      → s.store.io ≡ []
      → ((publish_valid env fl wiring ctx uri template slots default_branch message s).0
          ≡ ok (hash env template slots))
        × ((publish_valid env fl wiring ctx uri template slots default_branch message s).1.store.io
            ≡ [])
  unfolding publish_valid equal
  publish_valid_quiet ctx uri template slots message s gives quiet =
      let read = get env uri s.store in
      publish_change_quiet ctx uri template slots message
        (head_change env fl wiring (hash env template slots) template read.0)
        (record s { store = read.1 })
        (λ c. head_change_calm env fl wiring (hash env template slots) template read.0 c gives)
        (ap (λ x. x.1.io) (get_still env uri s.store quiet) ∙ quiet)

  -- while the database answers and the embedder gives vectors, a valid prompt of a caller who may
  -- write it is published
  pub publish_prompt_quiet :
      (ctx : Ctx) (uri template : Str) (slots : List Str) (branch message : Str) (s : Node)
      → GivesVectors fl wiring
      → authorized ctx uri ≡ true
      → may_write ctx ≡ true
      → prompt uri template slots ≡ none
      → branch_or branch ≡ default_branch
      → s.store.io ≡ []
      → ((publish_prompt env fl wiring ctx uri template slots branch message s).0
          ≡ ok (hash env template slots))
        × ((publish_prompt env fl wiring ctx uri template slots branch message s).1.store.io ≡ [])
  unfolding publish_prompt publish_checked guard
  publish_prompt_quiet ctx uri template slots branch message s gives may write valid trunk quiet =
      rw (may, write, valid, trunk)
        (publish_valid_quiet ctx uri template slots message s gives quiet)
