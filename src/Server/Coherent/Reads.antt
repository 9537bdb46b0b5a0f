-- ===== src/Server/Coherent/Reads.antt =====
-- The handlers that only read keep the cache and the tables in agreement; `GetPrompt` caches what the
-- tables serve.
use promptnet.Prelude.{
  ◌≡◌, ℕ, equal, refl, sym, ap, ◌∙◌, Option, none, some, List, [], Str, ◌==◌, str_eq, arith,
}
use promptnet.Semdiff.Analyze.{Outcome, ok, err, failed, panicked, diverged, Report}
use promptnet.Semdiff.Float.{Float}
use promptnet.Server.Auth.{ok, Ctx, authorized}
use promptnet.Server.Cache.{Response}
use promptnet.Server.Coherent.Entries.{
  Coherent, Holds, Coherent-reads, Coherent-with, Holds-guard, Holds-if,
}
use promptnet.Server.Handlers.{
  Wiring, respond, serve_commit, resolved, get_by_ref, serve_valid, serve_head, cached_or_head,
  get_prompt,
}
use promptnet.Server.Publish.Published.{get_read}
use promptnet.Server.Requests.{to_answer, diff_with, listed, logged, looked_up, diff_head, diff}
use promptnet.Server.Serve.{Node, cached, guard_ok, cache_get, ◌>>=◌}
use promptnet.Store.Commits.{get, resolve}
use promptnet.Store.Env.{Env}
use promptnet.Store.Exec.{
  Result, ok, err, not_found, branch_not_found, driver, constraint, bad_column, diverged,
}
use promptnet.Store.Listing.{Sql, Entry}
use promptnet.Store.Methods.{db-get}
use promptnet.Store.Reads.{db-resolve}
use promptnet.Store.Table.{Prompt, Commit, read_prompt}
use promptnet.Validate.{Invalid, prompt}

module _ (env : Env) (fl : Float) (wiring : Wiring fl) where
  serve_valid-Holds :
      (uri : Str) (p : Prompt) (o : Option Invalid) (s : Node)
      → read_prompt env uri s.store.db ≡ ok p
      → Coherent env s.cache s.store.db
      → Holds env (serve_valid env fl wiring uri p o s)
  unfolding serve_valid
  serve_valid-Holds uri p (some x) s at c = c
  serve_valid-Holds uri p none s at c =
      Coherent-with env s.store.clock uri p s.cache s.store.db at c

  serve_head-Holds :
      (uri : Str) (r : Result Prompt) (s : Node)
      → ((p : Prompt) → r ≡ ok p → read_prompt env uri s.store.db ≡ ok p)
      → Coherent env s.cache s.store.db
      → Holds env (serve_head env fl wiring uri r s)
  unfolding serve_head
  serve_head-Holds uri (err not_found) s at c = c
  serve_head-Holds uri (err branch_not_found) s at c = c
  serve_head-Holds uri (err driver) s at c = c
  serve_head-Holds uri (err constraint) s at c = c
  serve_head-Holds uri (err bad_column) s at c = c
  serve_head-Holds uri (err diverged) s at c = c
  serve_head-Holds uri (ok p) s at c =
      serve_valid-Holds uri p (prompt p.uri p.template p.slots) s (at p refl) c

  -- a prompt that was read is the one of the tables behind the read
  read_after :
      (uri : Str) (s : Node) (p : Prompt)
      → (get env uri s.store).0 ≡ ok p
      → read_prompt env uri (get env uri s.store).1.db ≡ ok p
  read_after uri s p e =
      ap (read_prompt env uri) (db-get env uri s.store) ∙ get_read env uri s.store p e

  cached_or_head-Holds :
      (uri : Str) (hit : Option Response) (s : Node)
      → Coherent env s.cache s.store.db
      → Holds env (cached_or_head env fl wiring uri hit s)
  unfolding cached_or_head
  cached_or_head-Holds uri (some r) s c = c
  cached_or_head-Holds uri none s c =
      let read = get env uri s.store in
      serve_head-Holds uri read.0 (record s { store = read.1 }) (read_after uri s)
        (Coherent-reads env s.cache s.store.db read.1.db
          (λ j. ap (read_prompt env j) (db-get env uri s.store)) c)

  serve_commit-Holds :
      (uri : Str) (x : Commit) (o : Option Invalid) (s : Node)
      → Coherent env s.cache s.store.db
      → Holds env (serve_commit env fl wiring uri x o s)
  unfolding serve_commit
  serve_commit-Holds uri x (some v) s c = c
  serve_commit-Holds uri x none s c = c

  resolved-Holds :
      (uri : Str) (r : Result Commit) (s : Node)
      → Coherent env s.cache s.store.db
      → Holds env (resolved env fl wiring uri r s)
  unfolding resolved
  resolved-Holds uri (err not_found) s c = c
  resolved-Holds uri (err branch_not_found) s c = c
  resolved-Holds uri (err driver) s c = c
  resolved-Holds uri (err constraint) s c = c
  resolved-Holds uri (err bad_column) s c = c
  resolved-Holds uri (err diverged) s c = c
  resolved-Holds uri (ok x) s c = serve_commit-Holds uri x (prompt uri x.template x.slots) s c

  pub get_prompt-Holds :
      (ctx : Ctx) (uri ref : Str) (s : Node)
      → Coherent env s.cache s.store.db
      → Holds env (get_prompt env fl wiring ctx uri ref s)
  unfolding get_prompt get_by_ref
  get_prompt-Holds ctx uri ref s c =
      let found = resolve env uri ref s.store in
      Holds-guard env (authorized ctx uri) _ s c (
        Holds-if env (ref == []) _ _ s
          (λ head. cached_or_head-Holds uri (cached s.store.clock uri s.cache) s c)
          (λ pinned.
            resolved-Holds uri found.0 (record s { store = found.1 })
              (Coherent-reads env s.cache s.store.db found.1.db
                (λ j. ap (read_prompt env j) (db-resolve env uri ref s.store)) c)))

  serve_valid-current :
      (uri : Str) (p : Prompt) (o : Option Invalid) (s : Node) (r : Response)
      → (serve_valid env fl wiring uri p o s).0 ≡ ok r
      → r ≡ respond p
  unfolding serve_valid
  serve_valid-current uri p (some x) s r e = absurd (ground (arith, e))
  serve_valid-current uri p none s r e = ground (arith, e)

  serve_head-current :
      (uri : Str) (o : Result Prompt) (s : Node) (r : Response)
      → (serve_head env fl wiring uri o s).0 ≡ ok r
      → (p : Prompt) × (o ≡ ok p) × (r ≡ respond p)
  unfolding serve_head
  serve_head-current uri (err x) s r e = absurd (ground (arith, e))
  serve_head-current uri (ok p) s r e =
      (p, refl, serve_valid-current uri p (prompt p.uri p.template p.slots) s r e)

  cached_or_head-current :
      (uri : Str) (hit : Option Response) (s : Node) (r : Response)
      → ((x : Response)
          → hit ≡ some x
          → (p : Prompt) × (read_prompt env uri s.store.db ≡ ok p) × (x ≡ respond p))
      → (cached_or_head env fl wiring uri hit s).0 ≡ ok r
      → (p : Prompt) × (read_prompt env uri s.store.db ≡ ok p) × (r ≡ respond p)
  unfolding cached_or_head
  cached_or_head-current uri (some x) s r h e =
      let (p, at, is) = h x refl in (p, at, ground (arith, e, is))
  cached_or_head-current uri none s r h e =
      let read = get env uri s.store in
      let (p, at, is) = serve_head-current uri read.0 (record s { store = read.1 }) r e in
      (p, get_read env uri s.store p at, is)

  -- without a pinned version, a response is the prompt that the tables serve
  pub get_prompt-served :
      (ctx : Ctx) (uri : Str) (s : Node) (r : Response)
      → Coherent env s.cache s.store.db
      → (get_prompt env fl wiring ctx uri [] s).0 ≡ ok r
      → (p : Prompt) × (read_prompt env uri s.store.db ≡ ok p) × (r ≡ respond p)
  unfolding get_prompt equal
  get_prompt-served ctx uri s r c e =
      let behind = cache_get uri >>= cached_or_head env fl wiring uri in
      let g = guard_ok (authorized ctx uri) behind r s e in
      cached_or_head-current uri (cached s.store.clock uri s.cache) s r (c s.store.clock uri)
        (ap (λ x. x.0) (sym g.1) ∙ e)

  module _ (sql : Sql) where
    pub listed-Holds :
        (r : Result (List Entry)) (s : Node)
        → Coherent env s.cache s.store.db
        → Holds env (listed env sql fl wiring r s)
    unfolding listed
    listed-Holds (ok es) s c = c
    listed-Holds (err e) s c = c

    pub logged-Holds :
        (r : Result (List Commit)) (s : Node)
        → Coherent env s.cache s.store.db
        → Holds env (logged env sql fl wiring r s)
    unfolding logged
    logged-Holds (ok l) s c = c
    logged-Holds (err e) s c = c

    pub looked_up-Holds :
        (r : Result Commit) (s : Node)
        → Coherent env s.cache s.store.db
        → Holds env (looked_up env sql fl wiring r s)
    unfolding looked_up
    looked_up-Holds (ok x) s c = c
    looked_up-Holds (err e) s c = c

    to_answer-Holds :
        (o : Outcome (List (Report fl))) (s : Node)
        → Coherent env s.cache s.store.db
        → Holds env (to_answer env sql fl wiring o s)
    unfolding to_answer
    to_answer-Holds (ok rs) s c = c
    to_answer-Holds (err panicked) s c = c
    to_answer-Holds (err failed) s c = c
    to_answer-Holds (err diverged) s c = c

    pub diff_with-Holds :
        (e : Option (ℕ → Str → Option (List (List fl.Single)))) (a b : Str) (s : Node)
        → Coherent env s.cache s.store.db
        → Holds env (diff_with env sql fl wiring e a b s)
    unfolding diff_with
    diff_with-Holds none a b s c = c
    diff_with-Holds (some embed) a b s c = to_answer-Holds _ s c

    pub diff_head-Holds :
        (t : Str) (r : Result Prompt) (s : Node)
        → Coherent env s.cache s.store.db
        → Holds env (diff_head env sql fl wiring t r s)
    unfolding diff_head diff
    diff_head-Holds t (err not_found) s c = c
    diff_head-Holds t (err branch_not_found) s c = c
    diff_head-Holds t (err driver) s c = c
    diff_head-Holds t (err constraint) s c = c
    diff_head-Holds t (err bad_column) s c = c
    diff_head-Holds t (err diverged) s c = c
    diff_head-Holds t (ok p) s c = diff_with-Holds wiring.embedder p.template t s c
