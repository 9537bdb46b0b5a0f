-- ===== src/Server/Contract.antt =====
-- The interface `Cache` of cache.go, and what it promises: TTL is the convergence mechanism.
use promptnet.Prelude.{ℕ, ◌+◌, ◌≤◌, ◌≡◌, Option, some, List, [], ◌∷◌, Str, ◌⊎◌, inl, inr}
use promptnet.Server.Cache.{Response}

pub record CacheOps : Type 1 where
  pub State : Type 0
  pub get : ℕ → Str → State → Option Response
  pub put : ℕ → Str → Response → State → State
  pub invalidate : ℕ → Str → State → State

-- How an implementation comes to a hit: it keeps what was put at a time, a hit is kept and within
-- the TTL, and a call adds at most what it puts.
pub record IsCache (ops : CacheOps) (ttl : ℕ) : Type 1 where
  pub Fits : ops.State → Type 0
  pub Keeps : ℕ → Str → Response → ops.State → Type 0
  pub hits :
      (now : ℕ) (uri : Str) (hit : Response) (s : ops.State)
      → Fits s
      → ops.get now uri s ≡ some hit
      → (t : ℕ) × Keeps t uri hit s × (now ≤ t + ttl)
  pub put-Fits :
      (now : ℕ) (uri : Str) (resp : Response) (s : ops.State)
      → Fits s
      → Fits (ops.put now uri resp s)
  pub put-Keeps :
      (now t : ℕ) (uri j : Str) (resp hit : Response) (s : ops.State)
      → Fits s
      → Keeps t j hit (ops.put now uri resp s)
      → ((t ≡ now) × (uri ≡ j) × (resp ≡ hit)) ⊎ Keeps t j hit s
  pub invalidate-Fits :
      (now : ℕ) (uri : Str) (s : ops.State) → Fits s → Fits (ops.invalidate now uri s)
  pub invalidate-Keeps :
      (now t : ℕ) (uri j : Str) (hit : Response) (s : ops.State)
      → Keeps t j hit (ops.invalidate now uri s)
      → Keeps t j hit s

-- a call that changes the cache, at its time
pub data CacheCall : Type 0 where
  put_at : ℕ → Str → Response → CacheCall
  invalidate_at : ℕ → Str → CacheCall

unfoldable pub run_call : (ops : CacheOps) → CacheCall → ops.State → ops.State
run_call ops (put_at now uri resp) s = ops.put now uri resp s
run_call ops (invalidate_at now uri) s = ops.invalidate now uri s

-- the calls, the last one first
unfoldable pub run_calls : (ops : CacheOps) → List CacheCall → ops.State → ops.State
unfolding run_call
run_calls ops [] s = s
run_calls ops (c ∷ calls) s = run_call ops c (run_calls ops calls s)

-- one of the calls has put this response at this URI, at this time
abbrev pub WasPut : ℕ → Str → Response → List CacheCall → Type 0
WasPut t uri hit [] = ⊥
WasPut t uri hit (put_at now u resp ∷ calls) =
    ((t ≡ now) × (u ≡ uri) × (resp ≡ hit)) ⊎ WasPut t uri hit calls
WasPut t uri hit (invalidate_at now u ∷ calls) = WasPut t uri hit calls

-- The contract: after any calls from an empty cache, a hit was put at this URI, no longer ago than
-- the TTL.
abbrev pub Contract : (ops : CacheOps) → ℕ → (ops.State → Type 0) → Type 0
Contract ops ttl Empty =
    (s : ops.State) (calls : List CacheCall) (now : ℕ) (uri : Str) (hit : Response)
    → Empty s
    → ops.get now uri (run_calls ops calls s) ≡ some hit
    → (t : ℕ) × WasPut t uri hit calls × (now ≤ t + ttl)

module _ (ops : CacheOps) (ttl : ℕ) (laws : IsCache ops ttl) where
  run_calls-Fits :
      (calls : List CacheCall) (s : ops.State) → laws.Fits s → laws.Fits (run_calls ops calls s)
  unfolding run_calls run_call
  run_calls-Fits [] s f = f
  run_calls-Fits (put_at t u resp ∷ calls) s f = laws.put-Fits t u resp _ (run_calls-Fits calls s f)
  run_calls-Fits (invalidate_at t u ∷ calls) s f =
      laws.invalidate-Fits t u _ (run_calls-Fits calls s f)

  Keeps-WasPut :
      (calls : List CacheCall) (s : ops.State) (t : ℕ) (uri : Str) (hit : Response)
      → laws.Fits s
      → ¬ laws.Keeps t uri hit s
      → laws.Keeps t uri hit (run_calls ops calls s)
      → WasPut t uri hit calls
  unfolding run_calls run_call
  Keeps-WasPut [] s t uri hit f none_kept k = none_kept k
  Keeps-WasPut (put_at now u resp ∷ calls) s t uri hit f none_kept k =
      elim (laws.put-Keeps now t u uri resp hit (run_calls ops calls s) (run_calls-Fits calls s f)
        k) [ inl is ↦ inl is | inr old ↦ inr (Keeps-WasPut calls s t uri hit f none_kept old) ]
  Keeps-WasPut (invalidate_at now u ∷ calls) s t uri hit f none_kept k =
      Keeps-WasPut calls s t uri hit f none_kept
        (laws.invalidate-Keeps now t u uri hit (run_calls ops calls s) k)

  pub IsCache-Contract :
      (Empty : ops.State → Type 0)
      → ((s : ops.State) → Empty s → laws.Fits s)
      → ((s : ops.State) (t : ℕ) (uri : Str) (hit : Response) → Empty s → ¬ laws.Keeps t uri hit s)
      → Contract ops ttl Empty
  IsCache-Contract Empty fits clear s calls now uri hit empty e =
      let (t, kept, young) =
        laws.hits now uri hit (run_calls ops calls s) (run_calls-Fits calls s (fits s empty)) e in
      (t, Keeps-WasPut calls s t uri hit (fits s empty) (clear s t uri hit empty) kept, young)
