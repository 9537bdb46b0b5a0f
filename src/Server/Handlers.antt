-- ===== src/Server/Handlers.antt =====
-- The handlers that change or serve prompts: `PublishPrompt`, `GetPrompt` with `getByRef`,
-- `CreateBranch`, `MergeBranch` and `SetBranch`.
use promptnet.Prelude.{
  ℕ, Bool, true, false, Option, none, some, List, [], ◌∷◌, Str, ◌==◌, str_eq, nat_eq, if◌then◌else◌,
  map,
}
use promptnet.Prelude.Text.{split}
use promptnet.Semdiff.Analyze.{Outcome, ok, err, failed, panicked, diverged, Report, analyze}
use promptnet.Semdiff.Float.{Float}
use promptnet.Semdiff.Verdict.{worst}
use promptnet.Server.Auth.{
  Code, Reply, ok, err, invalid_argument, not_found, internal, data_loss, panic, Ctx, scope_of,
}
use promptnet.Server.Cache.{Response}
use promptnet.Server.Serve.{
  Label, unclassified, new_prompt, classified, Serve, pure, fail, call, ◌>>=◌, ◌>>◌, Unit0,
  authorize, require_write, cache_get, cache_put, cache_invalidate, notify,
}
use promptnet.Store.Commits.{get, commit_on, create_branch, merge, resolve, set_branch, log}
use promptnet.Store.Env.{Env}
use promptnet.Store.Exec.{Result, ok, err, not_found, branch_not_found, StoreError}
use promptnet.Store.Hash.{hash}
use promptnet.Store.Table.{Prompt, Commit, default_branch}
use promptnet.Validate.{prompt, Invalid}

-- strings.ReplaceAll(s, "\r\n", "\n"); the flag says that the last byte read is a "\r" not yet written
unfoldable pub replace_crlf : Bool → Str → Str
replace_crlf false [] = []
replace_crlf true [] = 13 ∷ []
replace_crlf held (c ∷ s) =
    let after_cr = replace_crlf true s in
    let plain = replace_crlf false s in
    let out = if c == 13 then after_cr else c ∷ plain in
    if held then (if c == 10 then 10 ∷ plain else 13 ∷ out) else out

unfoldable pub split_lines : Str → List Str
unfolding replace_crlf split
split_lines s = split (replace_crlf false s) 10

unfoldable pub branch_or : Str → Str
branch_or b = if b == [] then default_branch else b

unfoldable pub branch_err : StoreError → Code
branch_err branch_not_found = not_found
branch_err e = internal

unfoldable pub respond : Prompt → Response
respond p = record {
  uri = p.uri;
  template = p.template;
  slots = p.slots;
  version_hash = p.version_hash;
  commit_hash = [];
}

-- What the service is wired with: the embedder, if one is, with its persistence fraction, and
-- whether there is a notifier. Each call of Embed is numbered from the start of its diff.
pub record Wiring (fl : Float) : Type 0 where
  pub embedder : Option (ℕ → Str → Option (List (List fl.Single)))
  pub pf : fl.Double
  pub notifier : Bool

module _ (env : Env) (fl : Float) (wiring : Wiring fl) where
  unfoldable pub label_of : Outcome (List (Report fl)) → Reply Label
  label_of (ok rs) = elim (worst (map (λ (r : Report fl). r.class) rs)) [
    | none ↦ ok unclassified
    | some c ↦ ok (classified c)
  ]
  label_of (err panicked) = err panic
  label_of (err failed) = ok unclassified
  label_of (err diverged) = ok unclassified

  -- `classify`, with the panic of the analysis
  unfoldable pub classify : Str → Str → Reply Label
  unfolding label_of
  classify old_t new_t = elim wiring.embedder [
    | none ↦ ok unclassified
    | some embed ↦
        if old_t == []
        then ok unclassified
        else label_of (analyze fl embed (split_lines old_t) (split_lines new_t) wiring.pf).0
  ]

  -- the switch of `PublishPrompt` on the served HEAD: none is its early return
  unfoldable pub head_change : Str → Str → Result Prompt → Option (Reply Label)
  head_change h template (ok prev) =
      if prev.version_hash == h then none else some (classify prev.template template)
  head_change h template (err not_found) = some (ok new_prompt)
  head_change h template (err e) = some (ok unclassified)

  -- `PublishPrompt` behind its store call
  unfoldable pub commit_stored : Str → Str → Str → Label → Result Str → Serve Str
  commit_stored uri branch h label (err _) = fail internal
  commit_stored uri branch h label (ok _) =
      if branch == default_branch
      then (do
        cache_invalidate uri
        notify wiring.notifier (record { uri = uri; version_hash = h; label = label })
        pure h)
      else pure h

  unfoldable pub publish_commit : Ctx → Str → Str → List Str → Str → Str → Label → Serve Str
  unfolding commit_stored
  publish_commit ctx uri template slots branch message label = do
    stored ← call (commit_on env uri branch template slots (scope_of ctx) message)
    commit_stored uri branch (hash env template slots) label stored

  -- the rest of `PublishPrompt`, if `head_change` does not end it
  unfoldable pub publish_change :
      Ctx → Str → Str → List Str → Str → Option (Reply Label) → Serve Str
  unfolding publish_commit
  publish_change ctx uri template slots message none = pure (hash env template slots)
  publish_change ctx uri template slots message (some (err c)) = fail c
  publish_change ctx uri template slots message (some (ok label)) =
      publish_commit ctx uri template slots default_branch message label

  unfoldable pub publish_valid : Ctx → Str → Str → List Str → Str → Str → Serve Str
  unfolding head_change publish_change publish_commit
  publish_valid ctx uri template slots branch message =
      if branch == default_branch
      then (do
        prev ← call (get env uri)
        publish_change ctx uri template slots message
            (head_change (hash env template slots) template prev))
      else publish_commit ctx uri template slots branch message unclassified

  unfoldable pub publish_checked :
      Ctx → Str → Str → List Str → Str → Str → Option Invalid → Serve Str
  unfolding publish_valid
  publish_checked ctx uri template slots branch message (some _) = fail invalid_argument
  publish_checked ctx uri template slots branch message none =
      publish_valid ctx uri template slots (branch_or branch) message

  unfoldable pub publish_prompt : Ctx → Str → Str → List Str → Str → Str → Serve Str
  unfolding publish_checked
  publish_prompt ctx uri template slots branch message = do
    authorize ctx uri
    require_write ctx
    publish_checked ctx uri template slots branch message (prompt uri template slots)

  unfoldable pub serve_commit : Str → Commit → Option Invalid → Serve Response
  serve_commit uri c (some _) = fail data_loss
  serve_commit uri c none = pure (record {
    uri = uri;
    template = c.template;
    slots = c.slots;
    version_hash = c.version_hash;
    commit_hash = c.hash;
  })

  unfoldable pub resolved : Str → Result Commit → Serve Response
  unfolding serve_commit
  resolved uri (err not_found) = fail not_found
  resolved uri (err branch_not_found) = fail not_found
  resolved uri (err e) = fail internal
  resolved uri (ok c) = serve_commit uri c (prompt uri c.template c.slots)

  unfoldable pub get_by_ref : Str → Str → Serve Response
  unfolding resolved
  get_by_ref uri ref = do found ← call (resolve env uri ref); resolved uri found

  -- the outcome of `Store.Get`, validated, served and cached
  unfoldable pub serve_valid : Str → Prompt → Option Invalid → Serve Response
  serve_valid uri p (some _) = fail data_loss
  serve_valid uri p none = cache_put uri (respond p) >> pure (respond p)

  unfoldable pub serve_head : Str → Result Prompt → Serve Response
  unfolding serve_valid
  serve_head uri (err not_found) = fail not_found
  serve_head uri (err e) = fail internal
  serve_head uri (ok p) = serve_valid uri p (prompt p.uri p.template p.slots)

  unfoldable pub cached_or_head : Str → Option Response → Serve Response
  unfolding serve_head
  cached_or_head uri (some resp) = pure resp
  cached_or_head uri none = call (get env uri) >>= serve_head uri

  unfoldable pub get_prompt : Ctx → Str → Str → Serve Response
  unfolding cached_or_head get_by_ref
  get_prompt ctx uri ref = do
    authorize ctx uri
    if ref == [] then cache_get uri >>= cached_or_head uri else get_by_ref uri ref

  -- `c[0].Hash`
  unfoldable pub first_hash : List Commit → Serve Str
  first_hash [] = fail panic
  first_hash (c ∷ _) = pure c.hash

  unfoldable pub branch_logged : Result (List Commit) → Serve Str
  unfolding first_hash
  branch_logged (err e) = fail (branch_err e)
  branch_logged (ok commits) = first_hash commits

  unfoldable pub branch_created : Str → Str → Result Unit0 → Serve Str
  unfolding branch_logged
  branch_created uri name (err e) = fail (branch_err e)
  branch_created uri name (ok _) = call (log env uri name) >>= branch_logged

  unfoldable pub create_branch_handler : Ctx → Str → Str → Str → Serve Str
  unfolding branch_created
  create_branch_handler ctx uri name from = do
    authorize ctx uri
    require_write ctx
    if name == []
        then fail invalid_argument
        else call (create_branch uri name (branch_or from)) >>= branch_created uri name

  unfoldable pub merge_done : Str → Str → Result Str → Serve Str
  merge_done uri into (err e) = fail (branch_err e)
  merge_done uri into (ok h) =
      if into == default_branch then cache_invalidate uri >> pure h else pure h

  unfoldable pub merge_branch : Ctx → Str → Str → Str → Str → Serve Str
  unfolding merge_done
  merge_branch ctx uri into from message = do
    authorize ctx uri
    require_write ctx
    merged ← call (merge env uri (branch_or into) from (scope_of ctx) message)
    merge_done uri (branch_or into) merged

  -- the template that the served HEAD had, for the classification
  unfoldable pub template_before : Result Prompt → Str
  template_before (ok prev) = prev.template
  template_before (err _) = []

  -- the notification of `SetBranch`, whose classification is an argument of the call
  unfoldable pub notify_moved : Str → Str → Reply Label → Serve Unit0
  notify_moved uri h (err c) = fail c
  notify_moved uri h (ok label) =
      notify true (record { uri = uri; version_hash = h; label = label })

  unfoldable pub branch_set : Str → Str → Str → Result Commit → Serve Str
  unfolding notify_moved
  branch_set uri branch prev_t (err not_found) = fail not_found
  branch_set uri branch prev_t (err e) = fail internal
  branch_set uri branch prev_t (ok c) =
      if branch == default_branch
      then (do
        cache_invalidate uri
        if wiring.notifier
            then notify_moved uri c.version_hash (classify prev_t c.template)
            else pure tt
        pure c.version_hash)
      else pure c.version_hash

  unfoldable pub set_valid : Str → Str → Str → Serve Str
  unfolding branch_set template_before
  set_valid uri branch h = do
    prev_t ←
        (if branch == default_branch
          then (do prev ← call (get env uri); pure (template_before prev))
          else pure [])
    moved ← call (set_branch env uri branch h)
    branch_set uri branch prev_t moved

  unfoldable pub set_branch_handler : Ctx → Str → Str → Str → Serve Str
  unfolding set_valid
  set_branch_handler ctx uri branch h = do
    authorize ctx uri
    require_write ctx
    if h == [] then fail invalid_argument else set_valid uri (branch_or branch) h
