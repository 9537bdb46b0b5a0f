-- ===== src/Command/Guarded.antt =====
-- The tokens file, the interceptors and the handlers together.
use promptnet.Prelude.{
  str_eq, ℕ, ◌≡◌, ◌≢◌, refl, sym, ap, ◌∙◌, Bool, true, false, some, List, ◌∷◌, Str, arith, inl, inr,
  Bool-cases, subst,
}
use promptnet.Prelude.Assoc
use promptnet.Prelude.Text.{split}
use promptnet.Command.Tokens.{Times, load_tokens}
use promptnet.Command.Tokens.Loads.{AnyGrants, load_tokens-Fits}
use promptnet.Semdiff.Float.{Float}
use promptnet.Server.Auth.{
  Code, permission_denied, resource_exhausted, Reply, ok, err, Ctx, Token, intercept, scope_value,
}
use promptnet.Server.Auth.Tokens.{IsMap, bearer, intercept-iff-Opens}
use promptnet.Server.Chain.{
  Rate, Audit, Gate, Limit, full_method, Arrival, count, metrics_interceptor, write_line,
  audit_interceptor, limited, rate_limit_interceptor, with_context, auth_interceptor, call_handler,
  serve_request,
}
use promptnet.Server.Guards.{mutates, handle_read_only}
use promptnet.Server.Handlers.{Wiring}
use promptnet.Server.Requests.{Request}
use promptnet.Server.Serve.{at_time, Node}
use promptnet.Store.Env.{Env}
use promptnet.Store.Listing.{Sql}

-- a status that leaves the tables, the cache and the notifications as they were
pub record Refused {ℓ} {A : Type ℓ} (rate : Rate) (g : Gate rate) (out : Reply A × Gate rate)
    : Type ℓ where
  pub code : Code
  pub reply : out.0 ≡ err code
  pub tables : out.1.node.store.db ≡ g.node.store.db
  pub cache_kept : out.1.node.cache ≡ g.node.cache
  pub events : out.1.node.events ≡ g.node.events

module _ {ℓ} {A : Type ℓ} (rate : Rate) where
  Refused-count :
      (method : Str) (g : Gate rate) (r : Reply A) (h : Gate rate)
      → Refused rate g (r, h)
      → Refused rate g (count rate method r h)
  unfolding count
  Refused-count method g (ok a) h w = absurd (ground (arith, w.reply))
  Refused-count method g (err c) h w = record {
    code = w.code;
    reply = ground (arith, w.reply);
    tables = ground (arith, w.tables);
    cache_kept = ground (arith, w.cache_kept);
    events = ground (arith, w.events);
  }

  Refused-write_line :
      (line : Audit) (g : Gate rate) (r : Reply A) (h : Gate rate)
      → Refused rate g (r, h)
      → Refused rate g (write_line rate line r h)
  unfolding write_line
  Refused-write_line line g (ok a) h w = absurd (ground (arith, w.reply))
  Refused-write_line line g (err c) h w = record {
    code = w.code;
    reply = ground (arith, w.reply);
    tables = ground (arith, w.tables);
    cache_kept = ground (arith, w.cache_kept);
    events = ground (arith, w.events);
  }

  Refused-limited :
      (scope : Str) (step : Bool × rate.Limiter) (handler : Gate rate → Reply A × Gate rate)
      (g : Gate rate)
      → ((x : Gate rate) → Refused rate x (handler x))
      → Refused rate g (limited rate scope step handler g)
  unfolding limited
  Refused-limited scope (false, lim) handler g h = record {
    code = resource_exhausted;
    reply = refl;
    tables = refl;
    cache_kept = refl;
    events = refl;
  }
  Refused-limited scope (true, lim) handler g h =
      let w = h (record g { limiters = Assoc.set scope lim g.limiters }) in
      record {
        code = w.code;
        reply = w.reply;
        tables = w.tables;
        cache_kept = w.cache_kept;
        events = w.events;
      }

  Refused-rate_limit_interceptor :
      (limit : Limit rate) (now : ℕ) (ctx : Ctx) (handler : Gate rate → Reply A × Gate rate)
      (g : Gate rate)
      → ((x : Gate rate) → Refused rate x (handler x))
      → Refused rate g (rate_limit_interceptor rate limit.rps limit.burst now ctx handler g)
  unfolding rate_limit_interceptor
  Refused-rate_limit_interceptor limit now ctx handler g h =
      elim (Bool-cases (rate.positive limit.rps)) [
        | inl on ↦ rw on (Refused-limited (scope_value ctx) _ handler g h)
        | inr off ↦ rw off (h g)
      ]

module _ (rate : Rate) (env : Env) (sql : Sql) (fl : Float) (wiring : Wiring fl) where
  Refused-call_handler :
      (now : ℕ) (req : Request) (ctx : Ctx) (g : Gate rate)
      → ctx.write ≡ some false
      → mutates req ≡ true
      → Refused rate g (call_handler rate env sql fl wiring now req ctx g)
  unfolding call_handler
  Refused-call_handler now req ctx g w m =
      let denied = handle_read_only env sql fl wiring ctx req (at_time now g.node) w m in
      record {
        code = permission_denied;
        reply = ap (λ x. x.0) denied;
        tables = ap (λ (x : _ × Node). x.1.store.db) denied;
        cache_kept = ap (λ (x : _ × Node). x.1.cache) denied;
        events = ap (λ (x : _ × Node). x.1.events) denied;
      }

  Refused-with_context :
      (limit : Limit rate) (a : Arrival rate) (r : Reply Ctx) (g : Gate rate)
      → mutates a.request ≡ true
      → ((ctx : Ctx) → r ≡ ok ctx → ctx.write ≡ some false)
      → Refused rate g (
          with_context rate r
            (λ ctx. audit_interceptor rate ctx a.request (
              rate_limit_interceptor rate limit.rps limit.burst a.now ctx
                (call_handler rate env sql fl wiring a.now a.request ctx)))
            g)
  unfolding with_context audit_interceptor
  Refused-with_context limit a (err c) g m h = record {
    code = c;
    reply = refl;
    tables = refl;
    cache_kept = refl;
    events = refl;
  }
  Refused-with_context limit a (ok ctx) g m h = Refused-write_line rate _ g _ _ (
      Refused-rate_limit_interceptor rate limit a.now ctx _ g
        (λ x. Refused-call_handler a.now a.request ctx x (h ctx refl) m))

  Refused-serve_request :
      (tokens : List (Str × Token)) (limit : Limit rate) (a : Arrival rate) (g : Gate rate)
      → mutates a.request ≡ true
      → ((ctx : Ctx) → intercept tokens a.now a.header ≡ ok ctx → ctx.write ≡ some false)
      → Refused rate g (serve_request rate env sql fl wiring tokens limit a g)
  unfolding serve_request metrics_interceptor auth_interceptor
  Refused-serve_request tokens limit a g m h =
      Refused-count rate (full_method a.request) g _ _
        (Refused-with_context limit a (intercept tokens a.now a.header) g m h)

  -- A server that has loaded a tokens file, with at least one token in the map, refuses, at any time and under any rate limit, every
  -- request to publish, branch, merge or roll back whose bearer token is not PROMPTNET_TOKEN and has
  -- no line with the field `rw`, and the tables, the cache and the notifications stay as they were.
  pub ungranted-Refused :
      (times : Times) (env_token content : Str) (c : ℕ) (file : Str) (w : Str × Token)
      (wants : List (Str × Token)) (limit : Limit rate) (a : Arrival rate) (key : Str)
      (g : Gate rate)
      → load_tokens times env_token (c ∷ file) (some content) ≡ some (w ∷ wants)
      → a.header ≡ some (bearer key)
      → key ≢ env_token
      → ¬ AnyGrants key (split content b'\n')
      → mutates a.request ≡ true
      → Refused rate g (serve_request rate env sql fl wiring (w ∷ wants) limit a g)
  ungranted-Refused times env_token content c file w wants limit a key g loaded sent other never m =
      let (tokens, load, map, writes) = load_tokens-Fits times env_token content c file in
      let same : tokens ≡ w ∷ wants = ground (arith, load, loaded) in
      Refused-serve_request (w ∷ wants) limit a g m λ ctx e.
        let o = (intercept-iff-Opens w wants a.now a.header ctx (subst IsMap same map)).0 e in
        let mine : o.key ≡ key = ground (arith, o.sent, sent) in
        let found =
          ap (λ k. Assoc.get k tokens) (sym mine) ∙ ap (Assoc.get o.key) same ∙ o.issued in
        elim (Bool-cases o.tok.write) [
          | inl may ↦
              absurd (elim (writes key o.tok found may) [ inl e ↦ other e | inr g ↦ never g ])
          | inr denied ↦ ap (λ (x : Ctx). x.write) o.gives ∙ ap some denied
        ]
