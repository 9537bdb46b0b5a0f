-- ===== src/Server/Chain/Limits.antt =====
-- The rate limit of an org depends on the requests of that org alone.
use promptnet.Prelude.{
  ℕ, ◌≡◌, refl, ap, ◌∙◌, Bool, true, false, Option, some, List, [], ◌∷◌, Str, ◌==◌, str_eq,
  if◌then◌else◌, arith, Bool-cases, inl, inr, equal, equal_iff,
}
use promptnet.Prelude.Assoc
use promptnet.Prelude.Assoc.{get-set}
use promptnet.Semdiff.Float.{Float}
use promptnet.Server.Auth.{Reply, ok, err, Ctx, Token, intercept, scope_value}
use promptnet.Server.Chain.{
  Rate, Gate, Audit, Limit, Arrival, count, metrics_interceptor, write_line, audit_interceptor,
  limiter_for, limited, burst_or, rate_limit_interceptor, with_context, auth_interceptor,
  call_handler, serve_request, serve_requests, full_method, uri_of,
}
use promptnet.Server.Handlers.{Wiring}
use promptnet.Store.Env.{Env}
use promptnet.Store.Listing.{Sql}

module _ (rate : Rate) (tokens : List (Str × Token)) (limit : Limit rate) where
  open rate use {Limiter}

  -- the scope of a request that the interceptor admits
  unfoldable pub scope_in : Reply Ctx → Str → Bool
  scope_in (err c) org = false
  scope_in (ok ctx) org = scope_value ctx == org

  abbrev pub is_of : Str → Arrival rate → Bool
  is_of org a = scope_in (intercept tokens a.now a.header) org

  abbrev pub only : Str → List (Arrival rate) → List (Arrival rate)
  only org [] = []
  only org (a ∷ rest) = let kept = only org rest in if is_of org a then a ∷ kept else kept

  -- what a request does to the limiter of its org
  after_one : ℕ → Option Limiter → Option Limiter
  after_one now o =
      if rate.positive limit.rps
      then some
          (rate.allow now (limiter_for rate limit.rps (burst_or rate limit.rps limit.burst) o)).1
      else o

  module _ {ℓ} {A : Type ℓ} where
    limiters-count :
        (method : Str) (r : Reply A) (g : Gate rate)
        → (count rate method r g).1.limiters ≡ g.limiters
    unfolding count
    limiters-count method (ok a) g = refl
    limiters-count method (err c) g = ground arith

    limiters-write_line :
        (line : Audit) (r : Reply A) (g : Gate rate)
        → (write_line rate line r g).1.limiters ≡ g.limiters
    unfolding write_line
    limiters-write_line line (ok a) g = refl
    limiters-write_line line (err c) g = ground arith

    -- a handler that leaves the limiters alone
    get-limited :
        (scope org : Str) (step : Bool × Limiter) (handler : Gate rate → Reply A × Gate rate)
        (g : Gate rate)
        → ((x : Gate rate) → (handler x).1.limiters ≡ x.limiters)
        → Assoc.get org (limited rate scope step handler g).1.limiters
          ≡ (if scope == org then some step.1 else Assoc.get org g.limiters)
    unfolding limited
    get-limited scope org (false, lim) handler g h = get-set scope org lim g.limiters
    get-limited scope org (true, lim) handler g h =
        ap (Assoc.get org) (h (record g { limiters = Assoc.set scope lim g.limiters }))
        ∙ get-set scope org lim g.limiters

    get-rate_limit_interceptor :
        (now : ℕ) (ctx : Ctx) (org : Str) (handler : Gate rate → Reply A × Gate rate)
        (g : Gate rate)
        → ((x : Gate rate) → (handler x).1.limiters ≡ x.limiters)
        → Assoc.get org
            (rate_limit_interceptor rate limit.rps limit.burst now ctx handler g).1.limiters
          ≡ (if scope_value ctx == org
              then after_one now (Assoc.get org g.limiters)
              else Assoc.get org g.limiters)
    unfolding rate_limit_interceptor after_one
    get-rate_limit_interceptor now ctx org handler g h =
        let step =
          get-limited (scope_value ctx) org
            (rate.allow now (
              limiter_for rate limit.rps (burst_or rate limit.rps limit.burst)
                (Assoc.get (scope_value ctx) g.limiters)))
            handler g h in
        elim (Bool-cases (equal (scope_value ctx) org)) [
          | inl same ↦
              let found =
                ap (λ x. Assoc.get x g.limiters) ((equal_iff (scope_value ctx) org).0 same) in
              ground (arith, same, step, ap (Assoc.get org) (h g), found)
          | inr other ↦ ground (arith, other, step, ap (Assoc.get org) (h g))
        ]

  module _ (env : Env) (sql : Sql) (fl : Float) (wiring : Wiring fl) where
    abbrev step : Arrival rate → Gate rate → Gate rate
    step a g = (serve_request rate env sql fl wiring tokens limit a g).1

    get-admitted :
        (a : Arrival rate) (org : Str) (r : Reply Ctx) (g : Gate rate)
        → Assoc.get org
            (with_context rate r
              (λ ctx. audit_interceptor rate ctx a.request (
                rate_limit_interceptor rate limit.rps limit.burst a.now ctx
                  (call_handler rate env sql fl wiring a.now a.request ctx)))
              g).1.limiters
          ≡ (if scope_in r org
              then after_one a.now (Assoc.get org g.limiters)
              else Assoc.get org g.limiters)
    unfolding with_context audit_interceptor scope_in
    get-admitted a org (err c) g = refl
    get-admitted a org (ok ctx) g =
        let out =
          rate_limit_interceptor rate limit.rps limit.burst a.now ctx
            (call_handler rate env sql fl wiring a.now a.request ctx) g in
        ap (Assoc.get org) (
          limiters-write_line
            (record {
              method = full_method a.request;
              org = scope_value ctx;
              uri = uri_of a.request;
              code = _;
            })
            out.0 out.1)
        ∙ get-rate_limit_interceptor a.now ctx org
            (call_handler rate env sql fl wiring a.now a.request ctx) g
            (λ x. unfold call_handler in refl)

    get-step :
        (a : Arrival rate) (org : Str) (g : Gate rate)
        → Assoc.get org (step a g).limiters ≡ (
            if is_of org a
            then after_one a.now (Assoc.get org g.limiters)
            else Assoc.get org g.limiters)
    unfolding serve_request metrics_interceptor auth_interceptor
    get-step a org g =
        ap (Assoc.get org) (limiters-count (full_method a.request) _ _)
        ∙ get-admitted a org (intercept tokens a.now a.header) g

    get-serve_requests :
        (org : Str) (arrivals : List (Arrival rate)) (g h : Gate rate)
        → Assoc.get org g.limiters ≡ Assoc.get org h.limiters
        → Assoc.get org (serve_requests rate env sql fl wiring tokens limit arrivals g).limiters
          ≡ Assoc.get org
              (serve_requests rate env sql fl wiring tokens limit (only org arrivals) h).limiters
    unfolding serve_requests
    get-serve_requests org [] g h e = e
    get-serve_requests org (a ∷ arrivals) g h e = elim (Bool-cases (is_of org a)) [
      | inl mine ↦
          get-serve_requests org arrivals (step a g) (step a h)
            (ground (arith, get-step a org g, get-step a org h, mine, ap (after_one a.now) e))
          ∙ ground (arith, mine)
      | inr other ↦
          get-serve_requests org arrivals (step a g) h (ground (arith, get-step a org g, other, e))
          ∙ ground (arith, other)
    ]

    -- The limiter that decides on the requests of an org is, after any requests at any times, the one
    -- that the requests of this org alone would have left: no other org, and no request that the
    -- interceptor refused, has taken from its bucket. What they did to the store does not matter.
    pub limiters_isolated :
        (org : Str) (arrivals : List (Arrival rate)) (g : Gate rate)
        → Assoc.get org (serve_requests rate env sql fl wiring tokens limit arrivals g).limiters
          ≡ Assoc.get org
              (serve_requests rate env sql fl wiring tokens limit (only org arrivals) g).limiters
    limiters_isolated org arrivals g = get-serve_requests org arrivals g g refl
