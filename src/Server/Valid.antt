-- ===== src/Server/Valid.antt =====
-- Serve-time validation: what the cache holds and what `GetPrompt` returns.
use promptnet.Prelude.{
  ℕ, ◌≡◌, refl, sym, ap, ◌∙◌, Bool, true, false, Option, none, some, [], Str, ◌==◌, str_eq, equal,
  if◌then◌else◌, arith, Bool-cases, inl, inr,
}
use promptnet.Semdiff.Float.{Float}
use promptnet.Server.Auth.{Reply, ok, err, Ctx, authorized}
use promptnet.Server.Cache.{Response, TtlCache, get-put, get-invalidate}
use promptnet.Server.Handlers.{
  Wiring, respond, serve_commit, resolved, get_by_ref, serve_valid, serve_head, cached_or_head,
  get_prompt,
}
use promptnet.Server.Serve.{
  Node, Serve, continue, ◌>>=◌, guard, cached, with_entry, without_entry, cache_get,
}
use promptnet.Store.Commits.{get, resolve}
use promptnet.Store.Env.{Env}
use promptnet.Store.Exec.{
  Result, ok, err, not_found, branch_not_found, driver, constraint, bad_column, diverged,
}
use promptnet.Store.Table.{Prompt, Commit}
use promptnet.Validate.{Invalid, prompt}

abbrev pub IsValid : Response → Type 0
IsValid r = prompt r.uri r.template r.slots ≡ none

-- every entry that is served is valid
abbrev pub AllValid : Option TtlCache → Type 0
AllValid cache = (now : ℕ) (uri : Str) (r : Response) → cached now uri cache ≡ some r → IsValid r

pub AllValid-without_entry :
    (uri : Str) (cache : Option TtlCache) → AllValid cache → AllValid (without_entry uri cache)
unfolding without_entry cached
AllValid-without_entry uri none v now j r e = v now j r e
AllValid-without_entry uri (some c) v now j r e =
    v now j r (ground (arith, get-invalidate now uri j c, e))

AllValid-with_entry :
    (now : ℕ) (uri : Str) (new : Response) (cache : Option TtlCache)
    → IsValid new
    → AllValid cache
    → AllValid (with_entry now uri new cache)
unfolding with_entry cached
AllValid-with_entry now uri new none i v later j r e = v later j r e
AllValid-with_entry now uri new (some c) i v later j r e = elim (Bool-cases (equal uri j)) [
  | inl same ↦
      let is : new ≡ r = ground (arith, get-put now later uri j new c, e, same) in
      ap (λ (x : Response). prompt x.uri x.template x.slots) (sym is) ∙ i
  | inr other ↦ v later j r (ground (arith, get-put now later uri j new c, e, other))
]

-- an action that keeps the cache valid and whose response, if it has one, is `Q`
abbrev pub Ends {ℓ} : {A : Type ℓ} → (A → Type 0) → Reply A × Node → Type 0
Ends Q (ok a, s) = Q a × AllValid s.cache
Ends Q (err c, s) = AllValid s.cache

pub Ends-continue {ℓ κ} :
    {A : Type ℓ} {B : Type κ} (P : A → Type 0) (Q : B → Type 0) (r : Reply A × Node)
    (f : A → Serve B)
    → Ends P r
    → ((a : A) (s : Node) → P a → AllValid s.cache → Ends Q (f a s))
    → Ends Q (continue r f)
Ends-continue P Q (ok a, s) f h k = k a s h.0 h.1
Ends-continue P Q (err c, s) f h k = h

pub Ends-guard : (b : Bool) (s : Node) → AllValid s.cache → Ends (λ _. Unit) (guard b s)
unfolding guard
Ends-guard true s v = (tt, v)
Ends-guard false s v = v

module _ (env : Env) (fl : Float) (wiring : Wiring fl) where
  serve_valid-Ends :
      (uri : Str) (p : Prompt) (o : Option Invalid) (s : Node)
      → prompt p.uri p.template p.slots ≡ o
      → AllValid s.cache
      → Ends IsValid (serve_valid env fl wiring uri p o s)
  unfolding serve_valid respond
  serve_valid-Ends uri p (some x) s e v = v
  serve_valid-Ends uri p none s e v =
      (e, AllValid-with_entry s.store.clock uri (respond p) s.cache e v)

  serve_head-Ends :
      (uri : Str) (r : Result Prompt) (s : Node)
      → AllValid s.cache
      → Ends IsValid (serve_head env fl wiring uri r s)
  unfolding serve_head
  serve_head-Ends uri (err not_found) s v = v
  serve_head-Ends uri (err branch_not_found) s v = v
  serve_head-Ends uri (err driver) s v = v
  serve_head-Ends uri (err constraint) s v = v
  serve_head-Ends uri (err bad_column) s v = v
  serve_head-Ends uri (err diverged) s v = v
  serve_head-Ends uri (ok p) s v = serve_valid-Ends uri p (prompt p.uri p.template p.slots) s refl v

  cached_or_head-Ends :
      (uri : Str) (hit : Option Response) (s : Node)
      → ((r : Response) → hit ≡ some r → IsValid r)
      → AllValid s.cache
      → Ends IsValid (cached_or_head env fl wiring uri hit s)
  unfolding cached_or_head
  cached_or_head-Ends uri (some resp) s i v = (i resp refl, v)
  cached_or_head-Ends uri none s i v =
      serve_head-Ends uri (get env uri s.store).0 (record s { store = (get env uri s.store).1 }) v

  serve_commit-Ends :
      (uri : Str) (c : Commit) (o : Option Invalid) (s : Node)
      → prompt uri c.template c.slots ≡ o
      → AllValid s.cache
      → Ends IsValid (serve_commit env fl wiring uri c o s)
  unfolding serve_commit
  serve_commit-Ends uri c (some x) s e v = v
  serve_commit-Ends uri c none s e v = (e, v)

  resolved-Ends :
      (uri : Str) (r : Result Commit) (s : Node)
      → AllValid s.cache
      → Ends IsValid (resolved env fl wiring uri r s)
  unfolding resolved
  resolved-Ends uri (err not_found) s v = v
  resolved-Ends uri (err branch_not_found) s v = v
  resolved-Ends uri (err driver) s v = v
  resolved-Ends uri (err constraint) s v = v
  resolved-Ends uri (err bad_column) s v = v
  resolved-Ends uri (err diverged) s v = v
  resolved-Ends uri (ok c) s v = serve_commit-Ends uri c (prompt uri c.template c.slots) s refl v

  head_or_ref-Ends :
      (pinned : Bool) (uri ref : Str) (s : Node)
      → AllValid s.cache
      → Ends IsValid (
          (if pinned
              then cache_get uri >>= cached_or_head env fl wiring uri
              else get_by_ref env fl wiring uri ref)
            s)
  unfolding get_by_ref
  head_or_ref-Ends true uri ref s v =
      cached_or_head-Ends uri (cached s.store.clock uri s.cache) s (v s.store.clock uri) v
  head_or_ref-Ends false uri ref s v =
      resolved-Ends uri (resolve env uri ref s.store).0
        (record s { store = (resolve env uri ref s.store).1 }) v

  pub get_prompt-Ends :
      (ctx : Ctx) (uri ref : Str) (s : Node)
      → AllValid s.cache
      → Ends IsValid (get_prompt env fl wiring ctx uri ref s)
  unfolding get_prompt
  get_prompt-Ends ctx uri ref s v =
      Ends-continue (λ _. Unit) IsValid (guard (authorized ctx uri) s) _
        (Ends-guard (authorized ctx uri) s v) λ a n _ w. head_or_ref-Ends (ref == []) uri ref n w
