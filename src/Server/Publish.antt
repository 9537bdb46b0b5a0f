-- ===== src/Server/Publish.antt =====
-- What a publish leaves for the readers.
pub mod Published
pub mod Sets
pub mod Labels
pub mod Succeeds
use promptnet.Prelude.{
  ◌≡◌, ◌≢◌, refl, sym, ap, ◌∙◌, true, none, List, [], Str, str_eq, nat_eq, equal, arith,
}
use promptnet.Semdiff.Float.{Float}
use promptnet.Server.Auth.{ok, Ctx, authorized, scope_of}
use promptnet.Server.Handlers.{
  Wiring, publish_prompt, get_prompt, cached_or_head, serve_head, serve_valid, respond, branch_or,
}
use promptnet.Server.Serve.{Node, continue, cached, guard}
use promptnet.Store.Commits.{get}
use promptnet.Store.Env.{Env, EnvLaws, AllText}
use promptnet.Store.Exec.{ok, State}
use promptnet.Store.Hash.{hash}
use promptnet.Store.Quiet.{get_still}
use promptnet.Store.Served.{commit_on-Shows}
use promptnet.Store.Table.{Prompt, default_branch, read_prompt}
use promptnet.Validate.{prompt}
use promptnet.Server.Publish.Published.{Absent, publish_prompt-Published}

module _ (env : Env) (fl : Float) (wiring : Wiring fl) where
  -- what a reader gets where the cache has no entry and the database answers
  get_prompt_miss :
      (ctx : Ctx) (uri : Str) (p : Prompt) (s : Node)
      → authorized ctx uri ≡ true
      → Absent uri s.cache
      → s.store.io ≡ []
      → read_prompt env uri s.store.db ≡ ok p
      → prompt p.uri p.template p.slots ≡ none
      → (get_prompt env fl wiring ctx uri [] s).0 ≡ ok (respond p)
  unfolding get_prompt guard equal cached_or_head serve_head serve_valid
  get_prompt_miss ctx uri p s may absent quiet read valid =
      let after : Node = record s { store = (get env uri s.store).1 } in
      ap
        (λ b.
          (continue (guard b s)
            (λ _ n. cached_or_head env fl wiring uri (cached n.store.clock uri n.cache) n)).0)
        may
      ∙ ap (λ o. (cached_or_head env fl wiring uri o s).0) (absent s.store.clock)
      ∙ ap (λ r. (serve_head env fl wiring uri r after).0)
          (ap (λ x. x.0) (get_still env uri s.store quiet) ∙ read)
      ∙ ap (λ v. (serve_valid env fl wiring uri p v after).0) valid

  -- Read your writes: after a publish on the trunk that succeeds and changes the content, a caller
  -- who may read the prompt gets, without a pinned version, exactly what was published, under the
  -- version hash that the publish returned, as long as the database answers.
  pub publish_prompt-get_prompt :
      {IsText : Str → Type 0} (laws : EnvLaws env IsText) (ctx reader : Ctx) (uri template : Str)
      (slots : List Str) (branch message h : Str) (s : Node)
      → AllText IsText slots
      → branch_or branch ≡ default_branch
      → ((p : Prompt)
          → read_prompt env uri s.store.db ≡ ok p
          → p.version_hash ≢ hash env template slots)
      → (publish_prompt env fl wiring ctx uri template slots branch message s).0 ≡ ok h
      → (publish_prompt env fl wiring ctx uri template slots branch message s).1.store.io ≡ []
      → authorized reader uri ≡ true
      → (get_prompt env fl wiring reader uri []
          (publish_prompt env fl wiring ctx uri template slots branch message s).1).0
        ≡ ok (record {
          uri = uri;
          template = template;
          slots = slots;
          version_hash = h;
          commit_hash = [];
        })
  unfolding respond
  publish_prompt-get_prompt laws ctx reader uri template slots branch message h s text trunk changed
        e quiet may =
      let after = (publish_prompt env fl wiring ctx uri template slots branch message s).1 in
      let (valid, done) =
        publish_prompt-Published env fl wiring ctx uri template slots branch message h s trunk
          changed e in
      let shows =
        commit_on-Shows env laws uri default_branch template slots (scope_of ctx) message
          done.commit (get env uri s.store).1 text done.committed in
      let p : Prompt = record {
        uri = uri;
        template = template;
        slots = slots;
        version_hash = hash env template slots;
      } in
      let read : read_prompt env uri after.store.db ≡ ok p =
        ap (λ (x : State). read_prompt env uri x.db) done.store ∙ shows.served refl in
      get_prompt_miss reader uri p after may done.absent quiet read valid
      ∙ ap
          (λ v. ok (record {
            uri = uri;
            template = template;
            slots = slots;
            version_hash = v;
            commit_hash = [];
          }))
          (sym done.version)
