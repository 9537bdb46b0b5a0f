-- ===== src/Server/Coherent.antt =====
-- The cache and the tables agree after every history of requests.
pub mod Entries
pub mod Writes
pub mod Reads
use promptnet.Prelude.{ℕ, ◌≡◌, ap, none, List, [], ◌∷◌, Str, ◌==◌, str_eq, arith}
use promptnet.Semdiff.Float.{Float}
use promptnet.Server.Auth.{Reply, ok, Ctx, authorized, may_write}
use promptnet.Server.Cache.{Response}
use promptnet.Server.Coherent.Entries.{
  Coherent, Holds, Coherent-reads, Holds-continue, Holds-if, Holds-guard,
}
use promptnet.Server.Coherent.Reads.{
  get_prompt-Holds, get_prompt-served, listed-Holds, logged-Holds, looked_up-Holds, diff_with-Holds,
  diff_head-Holds,
}
use promptnet.Server.Coherent.Writes.{
  publish_checked-Holds, create_branch-Holds, merge-Holds, set_valid-Holds,
}
use promptnet.Server.Handlers.{
  Wiring, respond, branch_or, publish_prompt, create_branch_handler, merge_branch,
  set_branch_handler, get_prompt,
}
use promptnet.Server.Histories.{serve_all}
use promptnet.Server.Requests.{
  Answer, version, prompt_answer, listing, diffs, history_answer, commit_answer, Request, publish,
  get_request, list_request, diff_request, history_request, branch_request, merge_request,
  diff_commits_request, set_branch_request, handle, diff, list_prompts, looked_up, diff_prompt,
  history, diff_commits,
}
use promptnet.Server.Serve.{at_time, Node, continue, cached, pure}
use promptnet.Store.Commits.{get, get_commit, log}
use promptnet.Store.Env.{Env}
use promptnet.Store.Exec.{ok, State}
use promptnet.Store.Listing.{Sql, list}
use promptnet.Store.Methods.{db-get}
use promptnet.Store.Reads.{db-get_commit, db-log, db-list}
use promptnet.Store.Table.{Prompt, read_prompt}
use promptnet.Validate.{prompt}

module _ (env : Env) (fl : Float) (wiring : Wiring fl) (sql : Sql) where
  answered {ℓ} :
      {A : Type ℓ} (r : Reply A × Node) (wrap : A → Answer fl)
      → Holds env r
      → Holds env (continue r (λ a. pure (wrap a)))
  answered r wrap h = Holds-continue env r (λ a. pure (wrap a)) h (λ a s _ c. c)

  -- a read of the store, which leaves the tables
  reads :
      (s : Node) (after : State)
      → after.db ≡ s.store.db
      → Coherent env s.cache s.store.db
      → Coherent env s.cache after.db
  reads s after same =
      Coherent-reads env s.cache s.store.db after.db (λ j. ap (read_prompt env j) same)

  diff_commits-Holds :
      (ctx : Ctx) (uri from to : Str) (s : Node)
      → Coherent env s.cache s.store.db
      → Holds env (diff_commits env sql fl wiring ctx uri from to s)
  unfolding diff_commits diff
  diff_commits-Holds ctx uri from to s c =
      let run = get_commit env from s.store in
      let first : Node = record s { store = run.1 } in
      Holds-guard env (authorized ctx uri) _ s c (
        Holds-continue env (looked_up env sql fl wiring run.0 first) _
          (looked_up-Holds env fl wiring sql run.0 first
            (reads s run.1 (db-get_commit env from s.store) c))
          λ a n _ u.
            let then_run = get_commit env to n.store in
            let second : Node = record n { store = then_run.1 } in
            Holds-continue env (looked_up env sql fl wiring then_run.0 second) _
              (looked_up-Holds env fl wiring sql then_run.0 second
                (reads n then_run.1 (db-get_commit env to n.store) u))
              λ b q _ x.
                diff_with-Holds env fl wiring sql wiring.embedder a.template b.template q x)

  handle-Holds :
      (ctx : Ctx) (req : Request) (s : Node)
      → Coherent env s.cache s.store.db
      → Holds env (handle env sql fl wiring ctx req s)
  unfolding handle publish_prompt list_prompts diff_prompt history create_branch_handler
      merge_branch set_branch_handler
  handle-Holds ctx (publish uri template slots branch message) s c = answered _ version (
      Holds-guard env (authorized ctx uri) _ s c (
        Holds-guard env (may_write ctx) _ s c (
          publish_checked-Holds env fl wiring ctx uri template slots branch message
            (prompt uri template slots) s c)))
  handle-Holds ctx (get_request uri ref) s c =
      answered (get_prompt env fl wiring ctx uri ref s) prompt_answer
        (get_prompt-Holds env fl wiring ctx uri ref s c)
  handle-Holds ctx (list_request prefix) s c =
      let run = list sql prefix s.store in
      answered _ listing (
        Holds-guard env (authorized ctx prefix) _ s c (
          listed-Holds env fl wiring sql run.0 (record s { store = run.1 })
            (reads s run.1 (db-list sql prefix s.store) c)))
  handle-Holds ctx (diff_request uri t) s c =
      let run = get env uri s.store in
      answered _ diffs (
        Holds-guard env (authorized ctx uri) _ s c (
          diff_head-Holds env fl wiring sql t run.0 (record s { store = run.1 })
            (reads s run.1 (db-get env uri s.store) c)))
  handle-Holds ctx (history_request uri branch) s c =
      let run = log env uri (branch_or branch) s.store in
      answered _ history_answer (
        Holds-guard env (authorized ctx uri) _ s c (
          logged-Holds env fl wiring sql run.0 (record s { store = run.1 })
            (reads s run.1 (db-log env uri (branch_or branch) s.store) c)))
  handle-Holds ctx (branch_request uri name from) s c = answered _ commit_answer (
      Holds-guard env (authorized ctx uri) _ s c (
        Holds-guard env (may_write ctx) _ s c (
          Holds-if env (name == []) _ _ s (λ _. c)
            (λ _. create_branch-Holds env fl wiring uri name (branch_or from) s c))))
  handle-Holds ctx (merge_request uri into from message) s c = answered _ commit_answer (
      Holds-guard env (authorized ctx uri) _ s c (
        Holds-guard env (may_write ctx) _ s c
          (merge-Holds env fl wiring uri (branch_or into) from _ message s c)))
  handle-Holds ctx (diff_commits_request uri from to) s c =
      answered _ diffs (diff_commits-Holds ctx uri from to s c)
  handle-Holds ctx (set_branch_request uri branch h) s c = answered _ version (
      Holds-guard env (authorized ctx uri) _ s c (
        Holds-guard env (may_write ctx) _ s c (
          Holds-if env (h == []) _ _ s (λ _. c)
            (λ _. set_valid-Holds env fl wiring uri (branch_or branch) h s c))))

  serve_all-Coherent :
      (requests : List (ℕ × Ctx × Request)) (s : Node)
      → Coherent env s.cache s.store.db
      → Coherent env
          (serve_all env fl wiring sql requests s).cache
          (serve_all env fl wiring sql requests s).store.db
  unfolding serve_all
  serve_all-Coherent [] s c = c
  serve_all-Coherent ((now, ctx, req) ∷ rest) s c =
      serve_all-Coherent rest (handle env sql fl wiring ctx req (at_time now s)).1
        (handle-Holds ctx req (at_time now s) c)

  -- No stale prompt is handed out: after any history of requests, each at its own time, that began
  -- with an empty cache, whatever statements of the database failed, a response of `GetPrompt` without a pinned version,
  -- cached or not, is the prompt that the tables serve at that moment.
  pub get_prompt-respond :
      (requests : List (ℕ × Ctx × Request)) (start : Node) (at : ℕ) (ctx : Ctx) (uri : Str)
      (r : Response)
      → ((now : ℕ) (u : Str) → cached now u start.cache ≡ none)
      → (get_prompt env fl wiring ctx uri []
          (at_time at (serve_all env fl wiring sql requests start))).0
        ≡ ok r
      → (p : Prompt) × (read_prompt env uri (serve_all env fl wiring sql requests start).store.db
          ≡ ok p)
        × (r ≡ respond p)
  get_prompt-respond requests start at ctx uri r empty e =
      get_prompt-served env fl wiring ctx uri
        (at_time at (serve_all env fl wiring sql requests start)) r
        (serve_all-Coherent requests start λ now u x hit. absurd (ground (arith, empty now u, hit)))
        e
