-- ===== src/Server/Publish/Published.antt =====
-- What a publish on the trunk that succeeds has stored.
use promptnet.Prelude.{
  ℕ, ◌≡◌, ◌≢◌, refl, sym, ap, ◌∙◌, subst, true, Option, none, some, List, Str, str_eq, nat_eq,
  equal, equal_iff, arith, Option-cases, inl, inr,
}
use promptnet.Semdiff.Float.{Float}
use promptnet.Server.Auth.{Reply, ok, err, Ctx, authorized, may_write, scope_of}
use promptnet.Server.Cache.{TtlCache, get-invalidate}
use promptnet.Server.Handlers.{
  Wiring, commit_stored, publish_commit, publish_change, publish_valid, publish_checked,
  publish_prompt, branch_or, head_change,
}
use promptnet.Server.Serve.{Label, Node, ◌>>◌, require_write, cached, without_entry, guard_ok}
use promptnet.Store.Commits.{get, commit_on}
use promptnet.Store.Env.{Env}
use promptnet.Store.Exec.{Result, ok, err, State}
use promptnet.Store.Hash.{hash}
use promptnet.Store.Keeps.{db-statement}
use promptnet.Store.Table.{Prompt, default_branch, read_prompt}
use promptnet.Validate.{prompt}

pub get_read :
    (env : Env) (uri : Str) (s : State) (p : Prompt)
    → (get env uri s).0 ≡ ok p
    → read_prompt env uri s.db ≡ ok p
unfolding get
get_read env uri s p e = ground (arith, db-statement s)

-- the cache has no entry of the prompt
abbrev pub Absent : Str → Option TtlCache → Type 0
Absent uri cache = (now : ℕ) → cached now uri cache ≡ none

Absent-without_entry : (uri : Str) (cache : Option TtlCache) → Absent uri (without_entry uri cache)
unfolding without_entry cached
Absent-without_entry uri none now = refl
Absent-without_entry uri (some c) now =
    ground (arith, get-invalidate now uri uri c, equal_iff uri uri)

module _ (env : Env) (fl : Float) (wiring : Wiring fl) where
  pub record Published (uri template : Str) (slots : List Str) (author message h : Str)
      (before : State) (after : Node) : Type 0 where
    pub version : h ≡ hash env template slots
    pub commit : Str
    pub committed :
        (commit_on env uri default_branch template slots author message before).0 ≡ ok commit
    pub store :
        after.store ≡ (commit_on env uri default_branch template slots author message before).1
    pub absent : Absent uri after.cache

  commit_stored-ok :
      (uri version h : Str) (label : Label) (r : Result Str) (s : Node)
      → (commit_stored env fl wiring uri default_branch version label r s).0 ≡ ok h
      → (h ≡ version)
        × ((c : Str) × (r ≡ ok c))
        × ((commit_stored env fl wiring uri default_branch version label r s).1.store ≡ s.store)
        × Absent uri (commit_stored env fl wiring uri default_branch version label r s).1.cache
  unfolding commit_stored equal
  commit_stored-ok uri version h label (err x) s e = absurd (ground (arith, e))
  commit_stored-ok uri version h label (ok c) s e =
      (ground (arith, e), (c, refl), refl, Absent-without_entry uri s.cache)

  pub publish_commit-Published :
      (ctx : Ctx) (uri template : Str) (slots : List Str) (message h : Str) (label : Label)
      (s : Node)
      → (publish_commit env fl wiring ctx uri template slots default_branch message label s).0
        ≡ ok h
      → Published uri template slots
          (scope_of ctx)
          message
          h
          s.store
          (publish_commit env fl wiring ctx uri template slots default_branch message label s).1
  unfolding publish_commit
  publish_commit-Published ctx uri template slots message h label s e =
      let run = commit_on env uri default_branch template slots (scope_of ctx) message s.store in
      let done =
        commit_stored-ok uri (hash env template slots) h label run.0 (record s { store = run.1 })
          e in
      record {
        version = done.0;
        commit = done.1.0;
        committed = done.1.1;
        store = done.2;
        absent = done.3;
      }

  publish_change-Published :
      (ctx : Ctx) (uri template : Str) (slots : List Str) (message h : Str)
      (o : Option (Reply Label)) (s : Node)
      → o ≢ none
      → (publish_change env fl wiring ctx uri template slots message o s).0 ≡ ok h
      → Published uri template slots
          (scope_of ctx)
          message
          h
          s.store
          (publish_change env fl wiring ctx uri template slots message o s).1
  unfolding publish_change
  publish_change-Published ctx uri template slots message h none s ne e = absurd (ne refl)
  publish_change-Published ctx uri template slots message h (some (err c)) s ne e =
      absurd (ground (arith, e))
  publish_change-Published ctx uri template slots message h (some (ok label)) s ne e =
      publish_commit-Published ctx uri template slots message h label s e

  head_changes :
      (version template : Str) (r : Result Prompt)
      → ((p : Prompt) → r ≡ ok p → p.version_hash ≢ version)
      → head_change env fl wiring version template r ≢ none
  unfolding head_change
  head_changes version template (ok p) h e =
      ground (arith, h p refl, equal_iff p.version_hash version, e)
  head_changes version template (err x) h e = ground (arith, e)

  publish_valid-Published :
      (ctx : Ctx) (uri template : Str) (slots : List Str) (message h : Str) (s : Node)
      → ((p : Prompt)
          → read_prompt env uri s.store.db ≡ ok p
          → p.version_hash ≢ hash env template slots)
      → (publish_valid env fl wiring ctx uri template slots default_branch message s).0 ≡ ok h
      → Published uri template slots
          (scope_of ctx)
          message
          h
          (get env uri s.store).1
          (publish_valid env fl wiring ctx uri template slots default_branch message s).1
  unfolding publish_valid equal
  publish_valid-Published ctx uri template slots message h s changed e =
      let prev = get env uri s.store in
      publish_change-Published ctx uri template slots message h
        (head_change env fl wiring (hash env template slots) template prev.0)
        (record s { store = prev.1 })
        (head_changes (hash env template slots) template prev.0
          λ p r. changed p (get_read env uri s.store p r))
        e

  -- A publish that succeeds has passed the guards.
  pub publish_prompt-guards :
      (ctx : Ctx) (uri template : Str) (slots : List Str) (branch message h : Str) (s : Node)
      → (publish_prompt env fl wiring ctx uri template slots branch message s).0 ≡ ok h
      → (authorized ctx uri ≡ true) × (may_write ctx ≡ true)
  unfolding publish_prompt
  publish_prompt-guards ctx uri template slots branch message h s e =
      let run_checked =
        publish_checked env fl wiring ctx uri template slots branch message
          (prompt uri template slots) in
      let g₁ = guard_ok (authorized ctx uri) (require_write ctx >> run_checked) h s e in
      let g₂ = guard_ok (may_write ctx) run_checked h s (ap (λ r. r.0) (sym g₁.1) ∙ e) in
      (g₁.0, g₂.0)

  -- A publish on the trunk that succeeds has passed the validation.
  pub publish_prompt-runs :
      (ctx : Ctx) (uri template : Str) (slots : List Str) (branch message h : Str) (s : Node)
      → branch_or branch ≡ default_branch
      → (publish_prompt env fl wiring ctx uri template slots branch message s).0 ≡ ok h
      → (prompt uri template slots ≡ none)
        × (publish_prompt env fl wiring ctx uri template slots branch message s
            ≡ publish_valid env fl wiring ctx uri template slots default_branch message s)
  unfolding publish_prompt publish_checked
  publish_prompt-runs ctx uri template slots branch message h s trunk e =
      let checked = publish_checked env fl wiring ctx uri template slots branch message in
      let run_checked = checked (prompt uri template slots) in
      let g₁ = guard_ok (authorized ctx uri) (require_write ctx >> run_checked) h s e in
      let g₂ = guard_ok (may_write ctx) run_checked h s (ap (λ r. r.0) (sym g₁.1) ∙ e) in
      let run : publish_prompt env fl wiring ctx uri template slots branch message s
          ≡ run_checked s =
        g₁.1 ∙ g₂.1 in
      elim (Option-cases (prompt uri template slots)) [
        | inl valid ↦ (
          valid,
          run
              ∙ ap (λ v. checked v s) valid
              ∙ ap (λ b. publish_valid env fl wiring ctx uri template slots b message s) trunk,
        )
        | inr (x, bad) ↦
            absurd (ground (arith, ap (λ r. r.0) (sym (run ∙ ap (λ v. checked v s) bad)) ∙ e))
      ]

  -- a publish on the trunk that succeeds with new content
  pub publish_prompt-Published :
      (ctx : Ctx) (uri template : Str) (slots : List Str) (branch message h : Str) (s : Node)
      → branch_or branch ≡ default_branch
      → ((p : Prompt)
          → read_prompt env uri s.store.db ≡ ok p
          → p.version_hash ≢ hash env template slots)
      → (publish_prompt env fl wiring ctx uri template slots branch message s).0 ≡ ok h
      → (prompt uri template slots ≡ none)
        × Published uri template slots
            (scope_of ctx)
            message
            h
            (get env uri s.store).1
            (publish_prompt env fl wiring ctx uri template slots branch message s).1
  publish_prompt-Published ctx uri template slots branch message h s trunk changed e =
      let (valid, path) = publish_prompt-runs ctx uri template slots branch message h s trunk e in
      (
        valid,
        subst
            (λ r. Published uri template slots (scope_of ctx) message h (get env uri s.store).1 r.1)
            (sym path)
            (publish_valid-Published ctx uri template slots message h s changed
              (ap (λ r. r.0) (sym path) ∙ e)),
      )
