-- ===== src/Server/Publish/Sets.antt =====
-- What a publish on the trunk that succeeds leaves in the tables, whether or not the content is new.
use promptnet.Prelude.{
  ◌≡◌, ◌≢◌, refl, sym, ap, ◌∙◌, subst, Option, none, some, List, Str, str_eq, equal, equal_iff,
  arith, inr,
}
use promptnet.Semdiff.Float.{Float}
use promptnet.Server.Auth.{Reply, ok, err, Ctx, scope_of}
use promptnet.Server.Handlers.{
  Wiring, publish_commit, publish_change, publish_valid, publish_prompt, branch_or, head_change,
}
use promptnet.Server.Publish.Published.{get_read, publish_commit-Published, publish_prompt-runs}
use promptnet.Server.Serve.{Label, Node}
use promptnet.Store.Commits.{get}
use promptnet.Store.Env.{Env, EnvLaws, AllText}
use promptnet.Store.Exec.{Result, ok, err, State, Db}
use promptnet.Store.Hash.{hash}
use promptnet.Store.Methods.{db-get}
use promptnet.Store.Served.{commit_on-Shows}
use promptnet.Store.Table.{Prompt, default_branch, read_prompt}
use promptnet.Validate.{prompt}

-- The prompt is served with the version hash of what was published, and all others as before.
pub record Sets (env : Env) (uri template : Str) (slots : List Str) (h : Str) (before after : Db)
    : Type 0 where
  pub version : h ≡ hash env template slots
  pub current : (p : Prompt) × (read_prompt env uri after ≡ ok p) × (p.version_hash ≡ h)
  pub others : (j : Str) → uri ≢ j → read_prompt env j after ≡ read_prompt env j before

module _ (env : Env) (fl : Float) (wiring : Wiring fl) {IsText : Str → Type 0}
    (laws : EnvLaws env IsText) where
  publish_commit-Sets :
      (ctx : Ctx) (uri template : Str) (slots : List Str) (message h : Str) (label : Label)
      (s : Node)
      → AllText IsText slots
      → (publish_commit env fl wiring ctx uri template slots default_branch message label s).0
        ≡ ok h
      → Sets env uri template slots h s.store.db
          (publish_commit env fl wiring ctx uri template slots default_branch message label
            s).1.store.db
  publish_commit-Sets ctx uri template slots message h label s text e =
      let done =
        publish_commit-Published env fl wiring ctx uri template slots message h label s e in
      let shows =
        commit_on-Shows env laws uri default_branch template slots (scope_of ctx) message
          done.commit s.store text done.committed in
      let stored = ap (λ (x : State). x.db) (sym done.store) in
      subst (Sets env uri template slots h s.store.db) stored (record {
        version = done.version;
        current = (_, shows.served refl, sym done.version);
        others = λ j ne. shows.others_served j (inr ne);
      })

  publish_change-Sets :
      (ctx : Ctx) (uri template : Str) (slots : List Str) (message h : Str)
      (o : Option (Reply Label)) (s : Node)
      → AllText IsText slots
      → (o ≡ none
          → (p : Prompt) × (read_prompt env uri s.store.db ≡ ok p)
            × (p.version_hash ≡ hash env template slots))
      → (publish_change env fl wiring ctx uri template slots message o s).0 ≡ ok h
      → Sets env uri template slots h s.store.db
          (publish_change env fl wiring ctx uri template slots message o s).1.store.db
  unfolding publish_change
  publish_change-Sets ctx uri template slots message h none s text same e =
      let (p, read, version) = same refl in
      let is : hash env template slots ≡ h = ground (arith, e) in
      record { version = sym is; current = (p, read, version ∙ is); others = λ j ne. refl }
  publish_change-Sets ctx uri template slots message h (some (err c)) s text same e =
      absurd (ground (arith, e))
  publish_change-Sets ctx uri template slots message h (some (ok label)) s text same e =
      publish_commit-Sets ctx uri template slots message h label s text e

  head_change-same :
      (version template : Str) (r : Result Prompt)
      → head_change env fl wiring version template r ≡ none
      → (p : Prompt) × (r ≡ ok p) × (p.version_hash ≡ version)
  unfolding head_change
  head_change-same version template (ok p) e =
      (p, refl, ground (arith, e, equal_iff p.version_hash version))
  head_change-same version template (err x) e = absurd (ground (arith, e))

  publish_valid-Sets :
      (ctx : Ctx) (uri template : Str) (slots : List Str) (message h : Str) (s : Node)
      → AllText IsText slots
      → (publish_valid env fl wiring ctx uri template slots default_branch message s).0 ≡ ok h
      → Sets env uri template slots h s.store.db
          (publish_valid env fl wiring ctx uri template slots default_branch message s).1.store.db
  unfolding publish_valid equal
  publish_valid-Sets ctx uri template slots message h s text e =
      let read = get env uri s.store in
      let read_node : Node = record s { store = read.1 } in
      let o = head_change env fl wiring (hash env template slots) template read.0 in
      let after = (publish_change env fl wiring ctx uri template slots message o read_node).1 in
      subst (λ d. Sets env uri template slots h d after.store.db) (db-get env uri s.store)
        (publish_change-Sets ctx uri template slots message h o read_node text
          (λ none_changes.
            let (p, at, version) =
              head_change-same (hash env template slots) template read.0 none_changes in
            (
              p,
              ap (read_prompt env uri) (db-get env uri s.store) ∙ get_read env uri s.store p at,
              version,
            ))
          e)

  pub publish_prompt-Sets :
      (ctx : Ctx) (uri template : Str) (slots : List Str) (branch message h : Str) (s : Node)
      → AllText IsText slots
      → branch_or branch ≡ default_branch
      → (publish_prompt env fl wiring ctx uri template slots branch message s).0 ≡ ok h
      → (prompt uri template slots ≡ none)
        × Sets env uri template slots h s.store.db
            (publish_prompt env fl wiring ctx uri template slots branch message s).1.store.db
  publish_prompt-Sets ctx uri template slots branch message h s text trunk e =
      let (valid, path) =
        publish_prompt-runs env fl wiring ctx uri template slots branch message h s trunk e in
      (
        valid,
        subst (λ r. Sets env uri template slots h s.store.db r.1.store.db) (sym path)
            (publish_valid-Sets ctx uri template slots message h s text
              (ap (λ r. r.0) (sym path) ∙ e)),
      )
