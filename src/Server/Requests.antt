-- ===== src/Server/Requests.antt =====
-- The reading handlers `ListPrompts`, `DiffPrompt`, `History` and `DiffCommits`, and every request
-- with its handler.
use promptnet.Prelude.{Option, ℕ, ◌%◌, ◌^◌, Bool, none, some, List, Str, map}
use promptnet.Semdiff.Analyze.{
  Outcome, ok, err, failed, panicked, diverged, Window, Report, Class, analyze,
}
use promptnet.Semdiff.Changes.{Change}
use promptnet.Semdiff.Float.{Float}
use promptnet.Semdiff.Verdict.{HunkKind, kind}
use promptnet.Server.Auth.{Code, ok, err, not_found, internal, panic, Ctx}
use promptnet.Server.Cache.{Response}
use promptnet.Server.Handlers.{
  Wiring, split_lines, branch_or, branch_err, publish_prompt, get_prompt, create_branch_handler,
  merge_branch, set_branch_handler,
}
use promptnet.Server.Serve.{Serve, pure, fail, call, ◌>>=◌, ◌>>◌, authorize}
use promptnet.Store.Commits.{get, get_commit, log}
use promptnet.Store.Env.{Env}
use promptnet.Store.Exec.{Result, ok, err, StoreError, not_found}
use promptnet.Store.Listing.{Sql, Entry, list}
use promptnet.Store.Table.{Prompt, Commit}

-- a Go int as an int32, by its residue
abbrev pub int32 : ℕ → ℕ
int32 n = n % 2 ^ 32

module _ (fl : Float) where
  pub record WireChange : Type 0 where
    pub range : Change
    pub kind : HunkKind
    pub point_delta : fl.Double
    pub up : List (Window fl)
    pub down : List (Window fl)
    pub up_boundary : Bool
    pub down_boundary : Bool
    pub classification : Class

  unfoldable pub to_windows : List (Window fl) → List (Window fl)
  to_windows ws = map (λ (w : Window fl). record w { radius = int32 w.radius }) ws

  unfoldable pub wire_change : Report fl → WireChange
  unfolding to_windows
  wire_change r = record {
    range = record {
      old_start = int32 r.change.old_start;
      old_end = int32 r.change.old_end;
      new_start = int32 r.change.new_start;
      new_end = int32 r.change.new_end;
    };
    kind = kind r.change;
    point_delta = r.signal2;
    up = to_windows r.up.curve;
    down = to_windows r.down.curve;
    up_boundary = r.up.stopped_at_boundary;
    down_boundary = r.down.stopped_at_boundary;
    classification = r.class;
  }

  pub data Answer : Type 0 where
    version : Str → Answer
    prompt_answer : Response → Answer
    listing : List Entry → Answer
    diffs : List WireChange → Answer
    history_answer : List Commit → Answer
    commit_answer : Str → Answer

pub data Request : Type 0 where
  publish : Str → Str → List Str → Str → Str → Request
  get_request : Str → Str → Request
  list_request : Str → Request
  diff_request : Str → Str → Request
  history_request : Str → Str → Request
  branch_request : Str → Str → Str → Request
  merge_request : Str → Str → Str → Str → Request
  diff_commits_request : Str → Str → Str → Request
  set_branch_request : Str → Str → Str → Request

-- what `authorize` is asked for
unfoldable pub target : Request → Str
target (publish uri template slots branch message) = uri
target (get_request uri ref) = uri
target (list_request prefix) = prefix
target (diff_request uri new_template) = uri
target (history_request uri branch) = uri
target (branch_request uri name from) = uri
target (merge_request uri into from message) = uri
target (diff_commits_request uri from to) = uri
target (set_branch_request uri branch h) = uri

module _ (env : Env) (sql : Sql) (fl : Float) (wiring : Wiring fl) where
  unfoldable pub to_answer : Outcome (List (Report fl)) → Serve (List (WireChange fl))
  unfolding wire_change
  to_answer (ok rs) = pure (map (wire_change fl) rs)
  to_answer (err panicked) = fail panic
  to_answer (err failed) = fail internal
  to_answer (err diverged) = fail internal

  -- a nil embedder is called all the same
  unfoldable pub diff_with :
      Option (ℕ → Str → Option (List (List fl.Single))) → Str → Str → Serve (List (WireChange fl))
  unfolding to_answer
  diff_with none old_t new_t = fail panic
  diff_with (some embed) old_t new_t =
      to_answer (analyze fl embed (split_lines old_t) (split_lines new_t) wiring.pf).0

  unfoldable pub diff : Str → Str → Serve (List (WireChange fl))
  unfolding diff_with
  diff old_t new_t = diff_with wiring.embedder old_t new_t

  unfoldable pub listed : Result (List Entry) → Serve (List Entry)
  listed (ok es) = pure es
  listed (err _) = fail internal

  unfoldable pub list_prompts : Ctx → Str → Serve (List Entry)
  unfolding listed
  list_prompts ctx prefix = do authorize ctx prefix; found ← call (list sql prefix); listed found

  unfoldable pub diff_head : Str → Result Prompt → Serve (List (WireChange fl))
  unfolding diff
  diff_head new_t (err not_found) = fail not_found
  diff_head new_t (err e) = fail internal
  diff_head new_t (ok p) = diff p.template new_t

  unfoldable pub diff_prompt : Ctx → Str → Str → Serve (List (WireChange fl))
  unfolding diff_head
  diff_prompt ctx uri new_t = do authorize ctx uri; head ← call (get env uri); diff_head new_t head

  unfoldable pub logged : Result (List Commit) → Serve (List Commit)
  logged (ok commits) = pure commits
  logged (err e) = fail (branch_err e)

  unfoldable pub history : Ctx → Str → Str → Serve (List Commit)
  unfolding logged
  history ctx uri branch = do
    authorize ctx uri
    commits ← call (log env uri (branch_or branch))
    logged commits

  unfoldable pub diff_commit_err : StoreError → Code
  diff_commit_err not_found = not_found
  diff_commit_err e = internal

  unfoldable pub looked_up : Result Commit → Serve Commit
  unfolding diff_commit_err
  looked_up (ok c) = pure c
  looked_up (err e) = fail (diff_commit_err e)

  unfoldable pub diff_commits : Ctx → Str → Str → Str → Serve (List (WireChange fl))
  unfolding looked_up diff
  diff_commits ctx uri from_hash to_hash = do
    authorize ctx uri
    first ← call (get_commit env from_hash)
    from ← looked_up first
    second ← call (get_commit env to_hash)
    to ← looked_up second
    diff from.template to.template

  -- the dispatch of the service
  unfoldable pub handle : Ctx → Request → Serve (Answer fl)
  unfolding publish_prompt get_prompt list_prompts diff_prompt history create_branch_handler
      merge_branch diff_commits set_branch_handler
  handle ctx (publish uri template slots branch message) = do
    h ← publish_prompt env fl wiring ctx uri template slots branch message
    pure (version h)
  handle ctx (get_request uri ref) = do
    r ← get_prompt env fl wiring ctx uri ref
    pure (prompt_answer r)
  handle ctx (list_request prefix) = do es ← list_prompts ctx prefix; pure (listing es)
  handle ctx (diff_request uri new_t) = do d ← diff_prompt ctx uri new_t; pure (diffs d)
  handle ctx (history_request uri branch) = do c ← history ctx uri branch; pure (history_answer c)
  handle ctx (branch_request uri name from) = do
    h ← create_branch_handler env fl wiring ctx uri name from
    pure (commit_answer h)
  handle ctx (merge_request uri into from message) = do
    h ← merge_branch env fl wiring ctx uri into from message
    pure (commit_answer h)
  handle ctx (diff_commits_request uri from to) = do
    d ← diff_commits ctx uri from to
    pure (diffs d)
  handle ctx (set_branch_request uri branch h) = do
    v ← set_branch_handler env fl wiring ctx uri branch h
    pure (version v)
