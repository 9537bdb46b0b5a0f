-- ===== src/Server/Guards.antt =====
-- What a token may not do.
use promptnet.Prelude.{
  ◌≡◌, ◌≢◌, refl, ap, Bool, true, false, some, [], Str, str_eq, nat_eq, equal_iff, arith,
}
use promptnet.Semdiff.Float.{Float}
use promptnet.Server.Auth.{
  Code, err, permission_denied, Ctx, org_of, scope_value, authorized, may_write,
}
use promptnet.Server.Handlers.{
  Wiring, publish_prompt, get_prompt, create_branch_handler, merge_branch, set_branch_handler,
}
use promptnet.Server.Requests.{
  Request, publish, get_request, list_request, diff_request, history_request, branch_request,
  merge_request, diff_commits_request, set_branch_request, target, handle, list_prompts,
  diff_prompt, history, diff_commits,
}
use promptnet.Server.Serve.{Node, Serve, continue, ◌>>=◌, ◌>>◌, guard, authorize}
use promptnet.Store.Env.{Env}
use promptnet.Store.Listing.{Sql}

module _ (ctx : Ctx) (uri : Str) (s : Node) where
  authorize-denied :
      scope_value ctx ≢ []
      → scope_value ctx ≢ org_of uri
      → authorize ctx uri s ≡ (err permission_denied, s)
  unfolding guard authorized
  authorize-denied a b =
      ground (arith, a, b, equal_iff (scope_value ctx) [], equal_iff (scope_value ctx) (org_of uri))

may_write-denied : (ctx : Ctx) → ctx.write ≡ some false → may_write ctx ≡ false
unfolding may_write
may_write-denied ctx e = ground (arith, e)

-- an action that a status ends ends what follows it
stops {ℓ κ μ} :
    {A : Type ℓ} {B : Type κ} {C : Type μ} (m : Serve A) (f : A → Serve B) (g : B → Serve C)
    (c : Code) (s : Node)
    → m s ≡ (err c, s)
    → (m >>= f >>= g) s ≡ (err c, s)
stops m f g c s e = ap (λ r. continue (continue r f) g) e

-- the requests that `requireWrite` gates
unfoldable pub mutates : Request → Bool
mutates (publish uri template slots branch message) = true
mutates (get_request uri ref) = false
mutates (list_request prefix) = false
mutates (diff_request uri new_template) = false
mutates (history_request uri branch) = false
mutates (branch_request uri name from) = true
mutates (merge_request uri into from message) = true
mutates (diff_commits_request uri from to) = false
mutates (set_branch_request uri branch h) = true

-- a second guard that refuses
stops_second {κ μ} :
    {B : Type κ} {C : Type μ} (b w : Bool) (f : Serve B) (g : B → Serve C) (s : Node)
    → w ≡ false
    → (guard b >> (guard w >> f) >>= g) s ≡ (err permission_denied, s)
unfolding guard
stops_second true true f g s e = absurd cc
stops_second true false f g s e = refl
stops_second false w f g s e = refl

module _ (env : Env) (sql : Sql) (fl : Float) (wiring : Wiring fl) where
  -- A caller that is scoped to an org gets, for whatever it asks of another org, permission denied,
  -- and nothing has happened: no statement, no cache access, no notification.
  pub handle_other_org :
      (ctx : Ctx) (req : Request) (s : Node)
      → scope_value ctx ≢ []
      → scope_value ctx ≢ org_of (target req)
      → handle env sql fl wiring ctx req s ≡ (err permission_denied, s)
  unfolding handle target publish_prompt get_prompt list_prompts diff_prompt history
      create_branch_handler merge_branch diff_commits set_branch_handler
  handle_other_org ctx (publish uri template slots branch message) s a b =
      stops (authorize ctx uri) _ _ _ s (authorize-denied ctx uri s a b)
  handle_other_org ctx (get_request uri ref) s a b =
      stops (authorize ctx uri) _ _ _ s (authorize-denied ctx uri s a b)
  handle_other_org ctx (list_request uri) s a b =
      stops (authorize ctx uri) _ _ _ s (authorize-denied ctx uri s a b)
  handle_other_org ctx (diff_request uri new_t) s a b =
      stops (authorize ctx uri) _ _ _ s (authorize-denied ctx uri s a b)
  handle_other_org ctx (history_request uri branch) s a b =
      stops (authorize ctx uri) _ _ _ s (authorize-denied ctx uri s a b)
  handle_other_org ctx (branch_request uri name from) s a b =
      stops (authorize ctx uri) _ _ _ s (authorize-denied ctx uri s a b)
  handle_other_org ctx (merge_request uri into from message) s a b =
      stops (authorize ctx uri) _ _ _ s (authorize-denied ctx uri s a b)
  handle_other_org ctx (diff_commits_request uri from to) s a b =
      stops (authorize ctx uri) _ _ _ s (authorize-denied ctx uri s a b)
  handle_other_org ctx (set_branch_request uri branch h) s a b =
      stops (authorize ctx uri) _ _ _ s (authorize-denied ctx uri s a b)

  -- A read-only token gets permission denied for every request that publishes, branches, merges or
  -- rolls back, of whatever org, and nothing has happened: the tables, the cache and the
  -- notifications are as they were.
  pub handle_read_only :
      (ctx : Ctx) (req : Request) (s : Node)
      → ctx.write ≡ some false
      → mutates req ≡ true
      → handle env sql fl wiring ctx req s ≡ (err permission_denied, s)
  unfolding handle mutates publish_prompt create_branch_handler merge_branch set_branch_handler
  handle_read_only ctx (publish uri template slots branch message) s a b =
      stops_second (authorized ctx uri) _ _ _ s (may_write-denied ctx a)
  handle_read_only ctx (branch_request uri name from) s a b =
      stops_second (authorized ctx uri) _ _ _ s (may_write-denied ctx a)
  handle_read_only ctx (merge_request uri into from message) s a b =
      stops_second (authorized ctx uri) _ _ _ s (may_write-denied ctx a)
  handle_read_only ctx (set_branch_request uri branch h) s a b =
      stops_second (authorized ctx uri) _ _ _ s (may_write-denied ctx a)
  handle_read_only ctx (get_request uri ref) s a b = absurd cc
  handle_read_only ctx (list_request prefix) s a b = absurd cc
  handle_read_only ctx (diff_request uri new_template) s a b = absurd cc
  handle_read_only ctx (history_request uri branch) s a b = absurd cc
  handle_read_only ctx (diff_commits_request uri from to) s a b = absurd cc
