-- ===== src/Command/Prompts.antt =====
-- The commands that open the store themselves: `put`, `backup`, `restore`, and `seedDemo` of `serve`.
pub mod Puts
pub mod Restores
pub mod Seeds
use promptnet.Prelude.{
  ℕ, zero, suc, ◌+◌, Bool, true, false, ◌&&◌, ◌||◌, not, Option, none, some, List, [], ◌∷◌, ◌++◌,
  Str, ◌==◌, str_eq, if◌then◌else◌, codes, length, take,
}
use promptnet.Semdiff.Analyze.{Class, structural, Report, analyze}
use promptnet.Semdiff.Analyze
use promptnet.Semdiff.Float.{Float}
use promptnet.Server.Handlers.{split_lines}
use promptnet.Store.Commits.{Unit0, get, put, commit_on}
use promptnet.Store.Env.{Env}
use promptnet.Store.Exec.{Result, ok, err, StoreError, not_found, State}
use promptnet.Store.Hash.{hash}
use promptnet.Store.Listing.{Sql, dump}
use promptnet.Store.Table.{Prompt, default_branch}
use promptnet.Validate.{Invalid, prompt}

-- how `put` ends: what it prints, the log.Fatal that it stops at, or the panic of the analysis
pub data PutExit : Type 0 where
  stored : Str → PutExit
  invalid : Invalid → PutExit
  store_failed : StoreError → PutExit
  analysis_failed structural_change crashed : PutExit

unfoldable pub is_structural : Class → Bool
is_structural structural = true
is_structural _ = false

module _ (fl : Float) where
  unfoldable pub has_structural : List (Report fl) → Bool
  unfolding is_structural
  has_structural [] = false
  has_structural (r ∷ res) = is_structural r.class || has_structural res

  -- what is shown of the change, and whether it is stored
  unfoldable pub check_analysis : Bool → Analyze.Outcome (List (Report fl)) → Option PutExit
  unfolding has_structural
  check_analysis force (Analyze.err Analyze.panicked) = some crashed
  check_analysis force (Analyze.err Analyze.failed) = some analysis_failed
  check_analysis force (Analyze.err Analyze.diverged) = some analysis_failed
  check_analysis force (Analyze.ok res) =
      if not force && has_structural res then some structural_change else none

module _ (env : Env) where
  unfoldable pub stored_or : Str → List Str → Result Unit0 × State → PutExit × State
  stored_or template slots (ok _, s) = (stored (take 12 (hash env template slots)), s)
  stored_or template slots (err e, s) = (store_failed e, s)

  unfoldable pub put_checked : Str → Str → List Str → Option PutExit → State → PutExit × State
  unfolding stored_or
  put_checked uri template slots (some exit) s = (exit, s)
  put_checked uri template slots none s = stored_or template slots (put env uri template slots s)

  -- `embed` and `pf` as in `Analyze`
  module _ (fl : Float) (embed : ℕ → Str → Option (List (List fl.Single))) (pf : fl.Double) where
    unfoldable pub check_change : Bool → Str → Result Prompt → Option PutExit
    unfolding check_analysis
    check_change force template (err not_found) = none
    check_change force template (err e) = some (store_failed e)
    check_change force template (ok prev) =
        if prev.template == template
        then none
        else check_analysis fl force
            (analyze fl embed (split_lines prev.template) (split_lines template) pf).0

    unfoldable pub put_valid :
        Bool → Str → Str → List Str → Option Invalid → State → PutExit × State
    unfolding put_checked check_change
    put_valid force uri template slots (some e) s = (invalid e, s)
    put_valid force uri template slots none s =
        let prev = get env uri s in
        put_checked uri template slots (check_change force template prev.0) prev.1

    -- `put`, with the store open
    unfoldable pub put_command : Bool → Str → Str → List Str → State → PutExit × State
    unfolding put_valid
    put_command force uri template slots =
        put_valid force uri template slots (prompt uri template slots)

abbrev pub demo_uri : Str
demo_uri = codes "promptnet://acme/onboarding/welcome"

abbrev pub demo_template : Str
demo_template = codes "Hi {name}, welcome to {org}!"

abbrev pub demo_slots : List Str
demo_slots = codes "name" ∷ codes "org" ∷ []

unfoldable pub seed_missing : Env → Result Prompt × State → State
seed_missing env (err not_found, s) =
    (commit_on env demo_uri default_branch demo_template demo_slots (codes "promptnet")
      (codes "seed: demo prompt") s).1
seed_missing env (_, s) = s

-- a commit that fails is logged
unfoldable pub seed_demo : Env → State → State
unfolding seed_missing
seed_demo env s = seed_missing env (get env demo_uri s)

-- What a json.Decoder gives: the end of its input, an error, or a prompt and the input behind it.
pub data Decoded : Type 0 where
  eof bad : Decoded
  value : Prompt → Str → Decoded

-- json.Encoder and json.Decoder on `Prompt`
pub record Json : Type 0 where
  pub encode : Prompt → Str
  pub decode : Str → Decoded

unfoldable pub encode_all : Json → List Prompt → Str
encode_all json [] = []
encode_all json (p ∷ ps) = json.encode p ++ encode_all json ps

-- what `backup` writes; the output takes it all
unfoldable pub backup : Env → Sql → Json → State → Result Str × State
unfolding encode_all
backup env sql json s =
    let out = dump env sql s in
    elim out.0 [ err e ↦ (err e, out.1) | ok ps ↦ (ok (encode_all json ps), out.1) ]

-- how `restore` ends: the number that it prints, or the log.Fatal that it stops at; `unfinished`
-- marks a loop that has used up its fuel
pub data RestoreExit : Type 0 where
  restored : ℕ → RestoreExit
  bad_input unfinished : RestoreExit
  put_failed : StoreError → RestoreExit

module _ (env : Env) (json : Json) where
  -- the loop over `n` and the rest of the input
  unfoldable pub restore_from : ℕ → ℕ → Decoded → State → RestoreExit × State
  restore_from fuel n eof s = (restored n, s)
  restore_from fuel n bad s = (bad_input, s)
  restore_from zero n (value p rest) s = (unfinished, s)
  restore_from (suc fuel) n (value p rest) s =
      let out = put env p.uri p.template p.slots s in
      let next = restore_from fuel (suc n) (json.decode rest) out.1 in
      elim out.0 [ err e ↦ (put_failed e, out.1) | ok _ ↦ next ]

  -- one round for each byte of the input, and one more
  unfoldable pub restore : Str → State → RestoreExit × State
  unfolding restore_from
  restore input = restore_from (suc (length input)) 0 (json.decode input)
