-- ===== src/Command/Prompts/Puts.antt =====
-- What `put` stores, and when it refuses to.
pub mod Writes
use promptnet.Prelude.{
  ℕ, ◌≡◌, ◌≢◌, refl, sym, ap, ◌∙◌, subst, Bool, true, false, Option, none, some, List, Str, str_eq,
  arith, equal_iff, ◌⊎◌, inl, inr, take,
}
use promptnet.Prelude.Assoc
use promptnet.Command.Prompts.{
  PutExit, stored, has_structural, check_analysis, stored_or, put_checked, check_change, put_valid,
  put_command,
}
use promptnet.Semdiff.Analyze.{Report, analyze}
use promptnet.Semdiff.Analyze
use promptnet.Semdiff.Float.{Float}
use promptnet.Server.Handlers.{split_lines}
use promptnet.Store.Commits.{Unit0, get, put}
use promptnet.Store.Env.{Env, EnvLaws, AllText}
use promptnet.Store.Exec.{driver, Result, ok, err, StoreError, Db, State}
use promptnet.Store.Hash.{hash}
use promptnet.Store.Methods.{db-get, put-Ensures}
use promptnet.Store.Table.{Prompt, read_prompt}
use promptnet.Validate.{Invalid, prompt}
use promptnet.Command.Prompts.Puts.Writes.{Puts, get_result, put-Puts}

module _ (env : Env) {IsText : Str → Type 0} (laws : EnvLaws env IsText) (fl : Float)
    (embed : ℕ → Str → Option (List (List fl.Single))) (pf : fl.Double) where
  -- the difference between two templates
  abbrev pub reports : Str → Str → Analyze.Outcome (List (Report fl))
  reports old new = (analyze fl embed (split_lines old) (split_lines new) pf).0

  -- What a stored prompt was checked for: it is valid, and where it replaces another template
  -- without `-force`, the analysis of the change came back and called no hunk structural.
  pub record Checked (force : Bool) (uri template : Str) (slots : List Str) (before : Db)
      : Type 0 where
    pub valid : prompt uri template slots ≡ none
    pub no_structural :
        (prev : Prompt)
        → read_prompt env uri before ≡ ok prev
        → prev.template ≢ template
        → (res : List (Report fl)) × (reports prev.template template ≡ Analyze.ok res)
          × ((force ≡ true) ⊎ (has_structural fl res ≡ false))

  check_analysis-none :
      (force : Bool) (o : Analyze.Outcome (List (Report fl)))
      → check_analysis fl force o ≡ none
      → (res : List (Report fl)) × (o ≡ Analyze.ok res)
        × ((force ≡ true) ⊎ (has_structural fl res ≡ false))
  unfolding check_analysis
  check_analysis-none force (Analyze.err Analyze.panicked) c = absurd cc
  check_analysis-none force (Analyze.err Analyze.failed) c = absurd cc
  check_analysis-none force (Analyze.err Analyze.diverged) c = absurd cc
  check_analysis-none force (Analyze.ok res) c = (res, refl, ground (arith, c))

  check_change-none :
      (force : Bool) (template : Str) (r : Result Prompt) (prev : Prompt)
      → check_change env fl embed pf force template r ≡ none
      → r ≡ ok prev
      → prev.template ≢ template
      → (res : List (Report fl)) × (reports prev.template template ≡ Analyze.ok res)
        × ((force ≡ true) ⊎ (has_structural fl res ≡ false))
  unfolding check_change
  check_change-none force template r prev c e ne =
      let at_prev = ap (check_change env fl embed pf force template) (sym e) ∙ c in
      check_analysis-none force (reports prev.template template)
        (ground (arith, at_prev, equal_iff prev.template template, ne))

  -- Either a prompt is stored: it was checked, it is served and nothing else has changed.
  -- Or the command has stopped and no table has changed.
  abbrev pub Ends : Bool → Str → Str → List Str → Db → PutExit × State → Type 0
  Ends force uri template slots before out =
      ((out.0 ≡ stored (take 12 (hash env template slots)))
        × Checked force uri template slots before
        × Puts env uri template slots before out.1.db)
      ⊎ (((v : Str) → out.0 ≢ stored v) × (out.1.db ≡ before))

  check_analysis-stops :
      (force : Bool) (o : Analyze.Outcome (List (Report fl))) (v : Str)
      → check_analysis fl force o ≢ some (stored v)
  unfolding check_analysis
  check_analysis-stops force (Analyze.err Analyze.panicked) v c = absurd cc
  check_analysis-stops force (Analyze.err Analyze.failed) v c = absurd cc
  check_analysis-stops force (Analyze.err Analyze.diverged) v c = absurd cc
  check_analysis-stops force (Analyze.ok res) v c = ground (arith, c)

  check_change-stops :
      (force : Bool) (template : Str) (r : Result Prompt) (v : Str)
      → check_change env fl embed pf force template r ≢ some (stored v)
  unfolding check_change
  check_change-stops force template (err e) v c = ground (arith, c)
  check_change-stops force template (ok p) v c =
      ground (arith, c, check_analysis-stops force (reports p.template template) v)

  stored_or-Ends :
      (force : Bool) (uri template : Str) (slots : List Str) (before : Db) (r : Result Unit0)
      (s : State)
      → Checked force uri template slots before
      → (r ≡ ok tt → Puts env uri template slots before s.db)
      → ((e : StoreError) → r ≡ err e → s.db ≡ before)
      → Ends force uri template slots before (stored_or env template slots (r, s))
  unfolding stored_or
  stored_or-Ends force uri template slots before (ok u) s c h k = inl (refl, c, h refl)
  stored_or-Ends force uri template slots before (err e) s c h k =
      inr ((λ v e. absurd cc), k e refl)

  put_checked-Ends :
      (force : Bool) (uri template : Str) (slots : List Str) (c : Option PutExit) (before : Db)
      (s : State)
      → AllText IsText slots
      → s.db ≡ before
      → (c ≡ none → Checked force uri template slots before)
      → ((v : Str) → c ≢ some (stored v))
      → Ends force uri template slots before (put_checked env uri template slots c s)
  unfolding put_checked
  put_checked-Ends force uri template slots (some exit) before s text same h stop =
      inr ((λ v e. stop v (ap some e)), same)
  put_checked-Ends force uri template slots none before s text same h stop =
      let out = put env uri template slots s in
      stored_or-Ends force uri template slots before out.0 out.1 (h refl)
        (λ e.
          subst (λ d. Puts env uri template slots d out.1.db) same
            (put-Puts env laws uri template slots s text e))
        (λ e r. (put-Ensures env s.db uri template slots).fails s e refl r ∙ same)

  driver_stops :
      (force : Bool) (template : Str) (r : Result Prompt)
      → r ≡ err driver
      → check_change env fl embed pf force template r ≢ none
  unfolding check_change
  driver_stops force template r e c =
      ground (arith, ap (check_change env fl embed pf force template) (sym e) ∙ c)

  found :
      (force : Bool) (uri template : Str) (s : State)
      → check_change env fl embed pf force template (get env uri s).0 ≡ none
      → (get env uri s).0 ≡ read_prompt env uri s.db
  found force uri template s go = elim (get_result env uri s) [
    | inl e ↦ e
    | inr e ↦ absurd (driver_stops force template (get env uri s).0 e go)
  ]

  put_valid-Ends :
      (force : Bool) (uri template : Str) (slots : List Str) (v : Option Invalid) (s : State)
      → AllText IsText slots
      → prompt uri template slots ≡ v
      → Ends force uri template slots s.db (put_valid env fl embed pf force uri template slots v s)
  unfolding put_valid
  put_valid-Ends force uri template slots (some e) s text p = inr ((λ v e. absurd cc), refl)
  put_valid-Ends force uri template slots none s text p =
      let prev = get env uri s in
      put_checked-Ends force uri template slots (check_change env fl embed pf force template prev.0)
        s.db prev.1 text (db-get env uri s)
        (λ go. record {
          valid = p;
          no_structural = λ old e ne.
              check_change-none force template prev.0 old go (found force uri template s go ∙ e) ne;
        })
        (check_change-stops force template prev.0)

  -- `put` ends in one of two ways. It prints the first twelve digits of the version hash: then the
  -- prompt is valid, a template that it replaces was analyzed and, without `-force`, no hunk of the
  -- change was structural, the prompt is served, and every other prompt and the history are as they
  -- were. Or it stops with an error, and no table has changed, whichever statement failed.
  pub put_command-Ends :
      (force : Bool) (uri template : Str) (slots : List Str) (s : State)
      → AllText IsText slots
      → Ends force uri template slots s.db (put_command env fl embed pf force uri template slots s)
  unfolding put_command
  put_command-Ends force uri template slots s text =
      put_valid-Ends force uri template slots (prompt uri template slots) s text refl
