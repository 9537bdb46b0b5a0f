-- ===== src/Server/Histories.antt =====
-- Every request keeps the cache valid, and so does every history of requests.
pub mod Steps
use promptnet.Prelude.{
  ℕ, ◌≡◌, sym, ap, ◌∙◌, Option, none, some, List, [], ◌∷◌, Str, ◌==◌, str_eq, arith,
}
use promptnet.Semdiff.Analyze.{Outcome, ok, err, failed, panicked, diverged, Report}
use promptnet.Semdiff.Float.{Float}
use promptnet.Server.Auth.{Reply, ok, err, Ctx, authorized, may_write}
use promptnet.Server.Cache.{Response}
use promptnet.Server.Handlers.{
  Wiring, publish_prompt, branch_or, create_branch_handler, merge_branch, set_branch_handler,
  get_prompt,
}
use promptnet.Server.Requests.{
  Answer, version, prompt_answer, listing, diffs, history_answer, commit_answer, Request, publish,
  get_request, list_request, diff_request, history_request, branch_request, merge_request,
  diff_commits_request, set_branch_request, handle, to_answer, diff_with, diff, listed,
  list_prompts, diff_head, diff_prompt, logged, history, looked_up, diff_commits,
}
use promptnet.Server.Serve.{at_time, Node, cached, continue, pure, guard}
use promptnet.Server.Valid.{IsValid, AllValid, Ends, Ends-continue, Ends-guard, get_prompt-Ends}
use promptnet.Store.Commits.{get_commit}
use promptnet.Store.Env.{Env}
use promptnet.Store.Exec.{
  Result, ok, err, not_found, branch_not_found, driver, constraint, bad_column, diverged,
}
use promptnet.Store.Listing.{Sql, Entry}
use promptnet.Store.Table.{Prompt, Commit}
use promptnet.Validate.{prompt}
use promptnet.Server.Histories.Steps.{
  Keeps, Keeps-continue, Keeps-if, publish_checked-Keeps, Keeps-guards, branch_created-Keeps,
  merge_done-Keeps, set_valid-Keeps,
}

module _ (env : Env) (fl : Float) (wiring : Wiring fl) (sql : Sql) where
  to_answer-Keeps :
      (o : Outcome (List (Report fl))) (s : Node)
      → AllValid s.cache
      → Keeps (to_answer env sql fl wiring o s)
  unfolding to_answer
  to_answer-Keeps (ok rs) s v = (tt, v)
  to_answer-Keeps (err panicked) s v = v
  to_answer-Keeps (err failed) s v = v
  to_answer-Keeps (err diverged) s v = v

  diff_with-Keeps :
      (e : Option (ℕ → Str → Option (List (List fl.Single)))) (a b : Str) (s : Node)
      → AllValid s.cache
      → Keeps (diff_with env sql fl wiring e a b s)
  unfolding diff_with
  diff_with-Keeps none a b s v = v
  diff_with-Keeps (some embed) a b s v = to_answer-Keeps _ s v

  listed-Keeps :
      (r : Result (List Entry)) (s : Node) → AllValid s.cache → Keeps (listed env sql fl wiring r s)
  unfolding listed
  listed-Keeps (ok es) s v = (tt, v)
  listed-Keeps (err e) s v = v

  logged-Keeps :
      (r : Result (List Commit)) (s : Node)
      → AllValid s.cache
      → Keeps (logged env sql fl wiring r s)
  unfolding logged
  logged-Keeps (ok c) s v = (tt, v)
  logged-Keeps (err e) s v = v

  looked_up-Keeps :
      (r : Result Commit) (s : Node) → AllValid s.cache → Keeps (looked_up env sql fl wiring r s)
  unfolding looked_up
  looked_up-Keeps (ok c) s v = (tt, v)
  looked_up-Keeps (err e) s v = v

  diff_head-Keeps :
      (t : Str) (r : Result Prompt) (s : Node)
      → AllValid s.cache
      → Keeps (diff_head env sql fl wiring t r s)
  unfolding diff_head diff
  diff_head-Keeps t (err not_found) s v = v
  diff_head-Keeps t (err branch_not_found) s v = v
  diff_head-Keeps t (err driver) s v = v
  diff_head-Keeps t (err constraint) s v = v
  diff_head-Keeps t (err bad_column) s v = v
  diff_head-Keeps t (err diverged) s v = v
  diff_head-Keeps t (ok p) s v = diff_with-Keeps wiring.embedder p.template t s v

  -- the answer wraps what a handler returns
  answered {ℓ} :
      {A : Type ℓ} (Q : A → Type 0) (r : Reply A × Node) (wrap : A → Answer fl)
      → Ends Q r
      → Keeps (continue r (λ a. pure (wrap a)))
  answered Q r wrap h = Ends-continue Q (λ _. Unit) r (λ a. pure (wrap a)) h (λ a s _ v. (tt, v))

  handle-Keeps :
      (ctx : Ctx) (req : Request) (s : Node)
      → AllValid s.cache
      → Keeps (handle env sql fl wiring ctx req s)
  unfolding handle publish_prompt list_prompts diff_prompt history create_branch_handler
      merge_branch diff_commits set_branch_handler diff
  handle-Keeps ctx (publish uri template slots branch message) s v =
      answered (λ _. Unit) _ version
        (Keeps-guards (authorized ctx uri) (may_write ctx) _ s v λ n u.
          publish_checked-Keeps env fl wiring ctx uri template slots branch message
            (prompt uri template slots) n u)
  handle-Keeps ctx (get_request uri ref) s v =
      answered IsValid (get_prompt env fl wiring ctx uri ref s) prompt_answer
        (get_prompt-Ends env fl wiring ctx uri ref s v)
  handle-Keeps ctx (list_request prefix) s v =
      answered (λ _. Unit) _ listing
        (Keeps-continue (guard (authorized ctx prefix) s) _ (Ends-guard (authorized ctx prefix) s v)
          λ _ n u. listed-Keeps _ _ u)
  handle-Keeps ctx (diff_request uri new_t) s v =
      answered (λ _. Unit) _ diffs
        (Keeps-continue (guard (authorized ctx uri) s) _ (Ends-guard (authorized ctx uri) s v)
          λ _ n u. diff_head-Keeps new_t _ _ u)
  handle-Keeps ctx (history_request uri branch) s v =
      answered (λ _. Unit) _ history_answer
        (Keeps-continue (guard (authorized ctx uri) s) _ (Ends-guard (authorized ctx uri) s v)
          λ _ n u. logged-Keeps _ _ u)
  handle-Keeps ctx (branch_request uri name from) s v =
      answered (λ _. Unit) _ commit_answer
        (Keeps-guards (authorized ctx uri) (may_write ctx) _ s v
          λ n u. Keeps-if (name == []) _ _ n u (branch_created-Keeps env fl wiring uri name _ _ u))
  handle-Keeps ctx (merge_request uri into from message) s v =
      answered (λ _. Unit) _ commit_answer
        (Keeps-guards (authorized ctx uri) (may_write ctx) _ s v
          λ n u. merge_done-Keeps env fl wiring uri (branch_or into) _ _ u)
  handle-Keeps ctx (diff_commits_request uri from to) s v =
      answered (λ _. Unit) _ diffs
        (Keeps-continue (guard (authorized ctx uri) s) _ (Ends-guard (authorized ctx uri) s v)
          λ _ n u.
            let c₁ = get_commit env from n.store in
            let n₁ : Node = record n { store = c₁.1 } in
            Keeps-continue (looked_up env sql fl wiring c₁.0 n₁) _ (looked_up-Keeps c₁.0 n₁ u)
              λ a o w.
                let c₂ = get_commit env to o.store in
                let n₂ : Node = record o { store = c₂.1 } in
                Keeps-continue (looked_up env sql fl wiring c₂.0 n₂) _ (looked_up-Keeps c₂.0 n₂ w)
                  λ b q x. diff_with-Keeps wiring.embedder a.template b.template q x)
  handle-Keeps ctx (set_branch_request uri branch h) s v =
      answered (λ _. Unit) _ version
        (Keeps-guards (authorized ctx uri) (may_write ctx) _ s v λ n u.
          Keeps-if (h == []) _ _ n u (set_valid-Keeps env fl wiring uri (branch_or branch) h n u))

  -- a history of requests, each at its own time and from its own caller
  unfoldable pub serve_all : List (ℕ × Ctx × Request) → Node → Node
  serve_all [] s = s
  serve_all ((now, ctx, req) ∷ rest) s =
      serve_all rest (handle env sql fl wiring ctx req (at_time now s)).1

  Keeps-valid {ℓ} : {A : Type ℓ} (r : Reply A × Node) → Keeps r → AllValid r.1.cache
  Keeps-valid (ok a, s) h = h.1
  Keeps-valid (err c, s) h = h

  serve_all-AllValid :
      (requests : List (ℕ × Ctx × Request)) (s : Node)
      → AllValid s.cache
      → AllValid (serve_all requests s).cache
  unfolding serve_all
  serve_all-AllValid [] s v = v
  serve_all-AllValid ((now, ctx, req) ∷ rest) s v = serve_all-AllValid rest _ (
      Keeps-valid (handle env sql fl wiring ctx req (at_time now s))
        (handle-Keeps ctx req (at_time now s) v))

  Ends-response :
      (r : Reply Response × Node) (x : Response) → Ends IsValid r → r.0 ≡ ok x → IsValid x
  Ends-response (ok a, s) x h e =
      let is : a ≡ x = ground (arith, e) in
      ap (λ (y : Response). prompt y.uri y.template y.slots) (sym is) ∙ h.0
  Ends-response (err c, s) x h e = absurd (ground (arith, e))

  -- A malformed prompt is never handed out: after any history of requests, each at its own time, that
  -- began with an empty cache, whatever is stored and whatever the database fails, a response of `GetPrompt`, cached,
  -- from the trunk or for a pinned version, passes the validation.
  pub get_prompt-IsValid :
      (requests : List (ℕ × Ctx × Request)) (start : Node) (at : ℕ) (ctx : Ctx) (uri ref : Str)
      (r : Response)
      → ((now : ℕ) (u : Str) → cached now u start.cache ≡ none)
      → (get_prompt env fl wiring ctx uri ref (at_time at (serve_all requests start))).0 ≡ ok r
      → prompt r.uri r.template r.slots ≡ none
  get_prompt-IsValid requests start at ctx uri ref r empty e =
      let node = at_time at (serve_all requests start) in
      Ends-response (get_prompt env fl wiring ctx uri ref node) r
        (get_prompt-Ends env fl wiring ctx uri ref node
          (serve_all-AllValid requests start λ now u x f. absurd (ground (arith, empty now u, f))))
        e
