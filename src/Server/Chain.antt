-- ===== src/Server/Chain.antt =====
-- internal/server/observability.go: the interceptors, and their chain in `serve` of
-- cmd/promptnet/main.go. A handler that panics takes the process down, past every interceptor.
pub mod Observed
pub mod Limits
use promptnet.Prelude.{
  ℕ, Bool, true, false, Option, none, some, List, [], ◌∷◌, ◌++◌, Str, ◌==◌, nat_eq, str_eq, ltb,
  if◌then◌else◌, codes,
}
use promptnet.Prelude.Assoc
use promptnet.Semdiff.Float.{Float}
use promptnet.Server.Auth.{
  Code, panic, resource_exhausted, Reply, ok, err, Ctx, Token, intercept, scope_value,
}
use promptnet.Server.Handlers.{Wiring}
use promptnet.Server.Requests.{
  Request, publish, get_request, list_request, diff_request, history_request, branch_request,
  merge_request, diff_commits_request, set_branch_request, Answer, handle,
}
use promptnet.Server.Serve.{Node, at_time}
use promptnet.Store.Env.{Env}
use promptnet.Store.Listing.{Sql}

-- golang.org/x/time/rate: `positive` and `floor` are the tests `rps > 0` and `int(rps)`, `allow` is
-- `Allow` at a time. A burst below 0 is as 0.
pub record Rate : Type 1 where
  pub Rps : Type 0
  pub Limiter : Type 0
  pub positive : Rps → Bool
  pub floor : Rps → ℕ
  pub new_limiter : Rps → ℕ → Limiter
  pub allow : ℕ → Limiter → Bool × Limiter

-- status.Code of the error
unfoldable pub status {ℓ} : {A : Type ℓ} → Reply A → Option Code
status (ok _) = none
status (err c) = some c

pub record Audit : Type 0 where
  pub method : Str
  pub org : Str
  pub uri : Str
  pub code : Option Code

unfoldable pub method_name : Request → Str
method_name (publish uri template slots branch message) = codes "PublishPrompt"
method_name (get_request uri ref) = codes "GetPrompt"
method_name (list_request prefix) = codes "ListPrompts"
method_name (diff_request uri new_template) = codes "DiffPrompt"
method_name (history_request uri branch) = codes "History"
method_name (branch_request uri name from) = codes "CreateBranch"
method_name (merge_request uri into from message) = codes "MergeBranch"
method_name (diff_commits_request uri from to) = codes "DiffCommits"
method_name (set_branch_request uri branch h) = codes "SetBranch"

-- info.FullMethod
unfoldable pub full_method : Request → Str
unfolding method_name
full_method req = codes "/promptnet.v1.PromptService/" ++ method_name req

-- the request of ListPrompts has no URI
unfoldable pub uri_of : Request → Str
uri_of (publish uri template slots branch message) = uri
uri_of (get_request uri ref) = uri
uri_of (list_request prefix) = []
uri_of (diff_request uri new_template) = uri
uri_of (history_request uri branch) = uri
uri_of (branch_request uri name from) = uri
uri_of (merge_request uri into from message) = uri
uri_of (diff_commits_request uri from to) = uri
uri_of (set_branch_request uri branch h) = uri

module _ (rate : Rate) where
  open rate use {Rps, Limiter}

  -- the process: `counted` has the increments of promptnet_requests_total, `audits` the log lines
  pub record Gate : Type 0 where
    pub node : Node
    pub limiters : List (Str × Limiter)
    pub counted : List (Str × Option Code)
    pub audits : List Audit

  abbrev pub Chained {ℓ} : Type ℓ → Type ℓ
  Chained A = Gate → Reply A × Gate

  -- the limiter of a scope, made at its first request
  unfoldable pub limiter_for : Rps → ℕ → Option Limiter → Limiter
  limiter_for rps burst none = rate.new_limiter rps burst
  limiter_for rps burst (some lim) = lim

  unfoldable pub burst_or : Rps → ℕ → ℕ
  burst_or rps burst =
      if burst == 0 then (if ltb (rate.floor rps) 1 then 1 else rate.floor rps) else burst

  module _ {ℓ} {A : Type ℓ} where
    unfoldable pub count : Str → Reply A → Gate → Reply A × Gate
    count method (err panic) g = (err panic, g)
    count method r g = (r, record g { counted = g.counted ++ (method, status r) ∷ [] })

    unfoldable pub metrics_interceptor : Str → Chained A → Chained A
    unfolding count
    metrics_interceptor method handler g = count method (handler g).0 (handler g).1

    unfoldable pub write_line : Audit → Reply A → Gate → Reply A × Gate
    write_line line (err panic) g = (err panic, g)
    write_line line r g = (r, record g { audits = g.audits ++ line ∷ [] })

    unfoldable pub audit_interceptor : Ctx → Request → Chained A → Chained A
    unfolding write_line
    audit_interceptor ctx req handler g =
        let out = handler g in
        write_line
          (record {
            method = full_method req;
            org = scope_value ctx;
            uri = uri_of req;
            code = status out.0;
          })
          out.0 out.1

    unfoldable pub limited : Str → Bool × Limiter → Chained A → Chained A
    limited scope (false, lim) handler g =
        (err resource_exhausted, record g { limiters = Assoc.set scope lim g.limiters })
    limited scope (true, lim) handler g =
        handler (record g { limiters = Assoc.set scope lim g.limiters })

    unfoldable pub rate_limit_interceptor : Rps → ℕ → ℕ → Ctx → Chained A → Chained A
    unfolding limiter_for limited burst_or
    rate_limit_interceptor rps burst now ctx handler g =
        let scope = scope_value ctx in
        if rate.positive rps
        then limited scope
            (rate.allow now (limiter_for rps (burst_or rps burst) (Assoc.get scope g.limiters)))
            handler g
        else handler g

    unfoldable pub with_context : Reply Ctx → (Ctx → Chained A) → Chained A
    with_context (err c) handler g = (err c, g)
    with_context (ok ctx) handler g = handler ctx g

    -- `AuthInterceptor`
    unfoldable pub auth_interceptor :
        List (Str × Token) → ℕ → Option Str → (Ctx → Chained A) → Chained A
    unfolding with_context
    auth_interceptor tokens now header handler = with_context (intercept tokens now header) handler

  pub record Limit : Type 0 where
    pub rps : Rps
    pub burst : ℕ

  -- a request that arrives: its time and its authorization value
  pub record Arrival : Type 0 where
    pub now : ℕ
    pub header : Option Str
    pub request : Request

  module _ (env : Env) (sql : Sql) (fl : Float) (wiring : Wiring fl) where
    unfoldable pub call_handler : ℕ → Request → Ctx → Chained (Answer fl)
    call_handler now req ctx g =
        let out = handle env sql fl wiring ctx req (at_time now g.node) in
        (out.0, record g { node = out.1 })

    -- the chain, from its outermost interceptor to the handler
    unfoldable pub serve_request : List (Str × Token) → Limit → Arrival → Chained (Answer fl)
    unfolding metrics_interceptor auth_interceptor audit_interceptor rate_limit_interceptor
        call_handler
    serve_request tokens limit a = metrics_interceptor (full_method a.request) (
        auth_interceptor tokens a.now a.header λ ctx. audit_interceptor ctx a.request (
          rate_limit_interceptor limit.rps limit.burst a.now ctx
            (call_handler a.now a.request ctx)))

    unfoldable pub serve_requests : List (Str × Token) → Limit → List Arrival → Gate → Gate
    unfolding serve_request
    serve_requests tokens limit [] g = g
    serve_requests tokens limit (a ∷ rest) g =
        serve_requests tokens limit rest (serve_request tokens limit a g).1
