-- ===== src/Server/Chain/Observed.antt =====
-- Each request is counted once and, behind the authentication, logged once, with its outcome.
use promptnet.Prelude.{
  ℕ, ◌≡◌, ◌≢◌, refl, sym, ap, ◌∙◌, Bool, true, false, Option, List, [], ◌∷◌, ◌++◌, Str, str_eq,
  arith, append-nil,
}
use promptnet.Prelude.Assoc
use promptnet.Semdiff.Float.{Float}
use promptnet.Server.Auth.{Code, panic, Reply, ok, err, Ctx, Token, intercept, scope_value}
use promptnet.Server.Chain.{
  Rate, Gate, Audit, Limit, Arrival, limiter_for, burst_or, count, status, metrics_interceptor,
  write_line, audit_interceptor, limited, rate_limit_interceptor, with_context, auth_interceptor,
  call_handler, serve_request, full_method, uri_of,
}
use promptnet.Server.Handlers.{Wiring}
use promptnet.Server.Requests.{Answer}
use promptnet.Store.Env.{Env}
use promptnet.Store.Listing.{Sql}

module _ (rate : Rate) where
  -- `a` has left what `g` counted and logged as it is in `h`
  abbrev Quiet : Gate rate → Gate rate → Type 0
  Quiet g h = (h.counted ≡ g.counted) × (h.audits ≡ g.audits)

  -- the lines of a request that was admitted with a context, or refused
  unfoldable pub lines_of : Arrival rate → Reply Ctx → Option Code → List Audit
  lines_of a (err c) code = []
  lines_of a (ok ctx) code =
      record {
        method = full_method a.request;
        org = scope_value ctx;
        uri = uri_of a.request;
        code = code;
      }
      ∷ []

  module _ {ℓ} {A : Type ℓ} where
    Quiet-limited :
        (scope : Str) (step : Bool × rate.Limiter) (handler : Gate rate → Reply A × Gate rate)
        (g : Gate rate)
        → ((x : Gate rate) → Quiet x (handler x).1)
        → Quiet g (limited rate scope step handler g).1
    unfolding limited
    Quiet-limited scope (false, lim) handler g h = (refl, refl)
    Quiet-limited scope (true, lim) handler g h = h _

    Quiet-rate_limit_interceptor :
        (limit : Limit rate) (now : ℕ) (ctx : Ctx) (handler : Gate rate → Reply A × Gate rate)
        (g : Gate rate)
        → ((x : Gate rate) → Quiet x (handler x).1)
        → Quiet g (rate_limit_interceptor rate limit.rps limit.burst now ctx handler g).1
    unfolding rate_limit_interceptor
    Quiet-rate_limit_interceptor limit now ctx handler g h =
        let kept =
          Quiet-limited (scope_value ctx)
            (rate.allow now (
              limiter_for rate limit.rps (burst_or rate limit.rps limit.burst)
                (Assoc.get (scope_value ctx) g.limiters)))
            handler g h in
        ground (arith, h g, kept)

    write_line-audits :
        (line : Audit) (r : Reply A) (g : Gate rate)
        → (write_line rate line r g).0 ≢ err panic
        → ((write_line rate line r g).0 ≡ r)
          × ((write_line rate line r g).1.counted ≡ g.counted)
          × ((write_line rate line r g).1.audits ≡ g.audits ++ line ∷ [])
    unfolding write_line
    write_line-audits line (ok a) g ne = (refl, refl, refl)
    write_line-audits line (err c) g ne = ground (arith, ne)

    count-counted :
        (method : Str) (r : Reply A) (g : Gate rate)
        → (count rate method r g).0 ≢ err panic
        → ((count rate method r g).0 ≡ r)
          × ((count rate method r g).1.counted ≡ g.counted ++ (method, status r) ∷ [])
          × ((count rate method r g).1.audits ≡ g.audits)
    unfolding count
    count-counted method (ok a) g ne = (refl, refl, refl)
    count-counted method (err c) g ne = ground (arith, ne)

  module _ (env : Env) (sql : Sql) (fl : Float) (wiring : Wiring fl) (limit : Limit rate)
      (a : Arrival rate) where
    abbrev behind_auth : Ctx → Gate rate → Reply (Answer fl) × Gate rate
    behind_auth ctx = audit_interceptor rate ctx a.request (
        rate_limit_interceptor rate limit.rps limit.burst a.now ctx
          (call_handler rate env sql fl wiring a.now a.request ctx))

    admitted_lines :
        (r : Reply Ctx) (g : Gate rate)
        → (with_context rate r behind_auth g).0 ≢ err panic
        → ((with_context rate r behind_auth g).1.counted ≡ g.counted)
          × ((with_context rate r behind_auth g).1.audits
              ≡ g.audits ++ lines_of a r (status (with_context rate r behind_auth g).0))
    unfolding with_context audit_interceptor lines_of
    admitted_lines (err c) g ne = (refl, sym (append-nil g.audits))
    admitted_lines (ok ctx) g ne =
        let handler = call_handler rate env sql fl wiring a.now a.request ctx in
        let out = rate_limit_interceptor rate limit.rps limit.burst a.now ctx handler g in
        let quiet =
          Quiet-rate_limit_interceptor limit a.now ctx handler g
            (λ x. unfold call_handler in (refl, refl)) in
        let written =
          write_line-audits
            (record {
              method = full_method a.request;
              org = scope_value ctx;
              uri = uri_of a.request;
              code = status out.0;
            })
            out.0 out.1 ne in
        (written.1 ∙ quiet.0, ground (arith, written.0, written.2, quiet.1))

    -- A request that does not panic is counted once, under its method and the status that the caller
    -- gets, whichever interceptor or handler gave it. Exactly if the authentication admits it, one
    -- line is logged, with the org of the token, the URI of the request and that status.
    pub serve_request_observed :
        (tokens : List (Str × Token)) (g : Gate rate)
        → (serve_request rate env sql fl wiring tokens limit a g).0 ≢ err panic
        → ((serve_request rate env sql fl wiring tokens limit a g).1.counted
            ≡ g.counted
              ++ (
                full_method a.request,
                status (serve_request rate env sql fl wiring tokens limit a g).0,
              )
                ∷ [])
          × ((serve_request rate env sql fl wiring tokens limit a g).1.audits
              ≡ g.audits
                ++ lines_of a
                    (intercept tokens a.now a.header)
                    (status (serve_request rate env sql fl wiring tokens limit a g).0))
    unfolding serve_request metrics_interceptor auth_interceptor
    serve_request_observed tokens g ne =
        let r = intercept tokens a.now a.header in
        let out = with_context rate r behind_auth g in
        let c = count-counted (full_method a.request) out.0 out.1 ne in
        let inner = admitted_lines r g (λ e. ne (c.0 ∙ e)) in
        (
          c.1
              ∙ ap (λ l. l ++ (full_method a.request, status out.0) ∷ []) inner.0
              ∙ ap (λ x. g.counted ++ (full_method a.request, status x) ∷ []) (sym c.0),
          c.2 ∙ inner.1 ∙ ap (λ x. g.audits ++ lines_of a r (status x)) (sym c.0),
        )
