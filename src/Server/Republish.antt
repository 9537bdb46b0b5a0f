-- ===== src/Server/Republish.antt =====
-- A publish that is repeated.
use promptnet.Prelude.{
  ℕ, ◌≡◌, ap, sym, ◌∙◌, true, none, List, [], Str, str_eq, equal, equal_iff, arith,
}
use promptnet.Semdiff.Float.{Float}
use promptnet.Server.Auth.{ok, Ctx, authorized, may_write}
use promptnet.Server.Handlers.{
  Wiring, publish_change, publish_valid, publish_checked, publish_prompt, branch_or, head_change,
}
use promptnet.Server.Publish.Published.{publish_prompt-guards}
use promptnet.Server.Publish.Sets.{publish_prompt-Sets}
use promptnet.Server.Serve.{at_time, Node, continue, guard}
use promptnet.Store.Env.{Env, EnvLaws, AllText}
use promptnet.Store.Exec.{ok}
use promptnet.Store.Hash.{hash}
use promptnet.Store.Quiet.{get_still}
use promptnet.Store.Table.{Prompt, default_branch, read_prompt}
use promptnet.Validate.{prompt}

module _ (env : Env) (fl : Float) (wiring : Wiring fl) where
  publish_valid_same :
      (ctx : Ctx) (uri template : Str) (slots : List Str) (message : Str) (p : Prompt) (s : Node)
      → s.store.io ≡ []
      → read_prompt env uri s.store.db ≡ ok p
      → p.version_hash ≡ hash env template slots
      → publish_valid env fl wiring ctx uri template slots default_branch message s
        ≡ (ok (hash env template slots), s)
  unfolding publish_valid publish_change equal
  publish_valid_same ctx uri template slots message p s quiet read same =
      let same_head : head_change env fl wiring (hash env template slots) template (ok p) ≡ none =
        unfold head_change in
        ground (arith, same, equal_iff p.version_hash (hash env template slots)) in
      ap
        (λ r.
          publish_change env fl wiring ctx uri template slots message
            (head_change env fl wiring (hash env template slots) template r.0)
            (record s { store = r.1 }))
        (get_still env uri s.store quiet ∙ ap (λ r. (r, s.store)) read)
      ∙ ap (λ o. publish_change env fl wiring ctx uri template slots message o s) same_head

  publish_prompt_same :
      (ctx : Ctx) (uri template : Str) (slots : List Str) (branch message : Str) (p : Prompt)
      (s : Node)
      → authorized ctx uri ≡ true
      → may_write ctx ≡ true
      → prompt uri template slots ≡ none
      → branch_or branch ≡ default_branch
      → s.store.io ≡ []
      → read_prompt env uri s.store.db ≡ ok p
      → p.version_hash ≡ hash env template slots
      → publish_prompt env fl wiring ctx uri template slots branch message s
        ≡ (ok (hash env template slots), s)
  unfolding publish_prompt publish_checked guard
  publish_prompt_same ctx uri template slots branch message p s may write valid trunk quiet read
        same =
      let checked = publish_checked env fl wiring ctx uri template slots branch message in
      ap
        (λ b.
          continue (guard b s)
            (λ _ n. continue (guard (may_write ctx) n) (λ _. checked (prompt uri template slots))))
        may
      ∙ ap (λ b. continue (guard b s) (λ _. checked (prompt uri template slots))) write
      ∙ ap (λ v. checked v s) valid
      ∙ ap (λ b. publish_valid env fl wiring ctx uri template slots b message s) trunk
      ∙ publish_valid_same ctx uri template slots message p s quiet read same

  -- Publishing is idempotent: after a publish on the trunk that succeeds, whether or not it had new
  -- content, the same publish with any message, at any later time, returns the same hash, and no
  -- table, cache entry or notification changes, as long as the database answers. The slots are text.
  pub publish_prompt-publish_prompt :
      {IsText : Str → Type 0} (laws : EnvLaws env IsText) (ctx : Ctx) (uri template : Str)
      (slots : List Str) (branch message again h : Str) (now : ℕ) (s : Node)
      → AllText IsText slots
      → branch_or branch ≡ default_branch
      → (publish_prompt env fl wiring ctx uri template slots branch message s).0 ≡ ok h
      → (publish_prompt env fl wiring ctx uri template slots branch message s).1.store.io ≡ []
      → publish_prompt env fl wiring ctx uri template slots branch again
          (at_time now (publish_prompt env fl wiring ctx uri template slots branch message s).1)
        ≡ (
          ok h,
          at_time now (publish_prompt env fl wiring ctx uri template slots branch message s).1,
        )
  publish_prompt-publish_prompt laws ctx uri template slots branch message again h now s text trunk
        e quiet =
      let after =
        at_time now (publish_prompt env fl wiring ctx uri template slots branch message s).1 in
      let (may, write) =
        publish_prompt-guards env fl wiring ctx uri template slots branch message h s e in
      let (valid, sets) =
        publish_prompt-Sets env fl wiring laws ctx uri template slots branch message h s text trunk
          e in
      let (p, read, version) = sets.current in
      publish_prompt_same ctx uri template slots branch again p after may write valid trunk quiet
        read (version ∙ sets.version)
      ∙ ap (λ v. (ok v, after)) (sym sets.version)
