-- ===== src/Server/Histories/Steps.antt =====
-- Every step of a handler keeps the cache valid.
use promptnet.Prelude.{
  Bool, true, false, Option, none, some, List, [], ◌∷◌, Str, ◌==◌, str_eq, if◌then◌else◌,
}
use promptnet.Semdiff.Analyze.{ok, err}
use promptnet.Semdiff.Float.{Float}
use promptnet.Server.Auth.{Reply, ok, err, Ctx}
use promptnet.Server.Handlers.{
  Wiring, commit_stored, publish_commit, publish_change, publish_valid, publish_checked, branch_or,
  branch_logged, branch_created, first_hash, merge_done, branch_set, set_valid, notify_moved,
  classify,
}
use promptnet.Server.Serve.{Node, Serve, continue, ◌>>◌, guard, Unit0, Label, without_entry}
use promptnet.Server.Valid.{AllValid, AllValid-without_entry, Ends, Ends-continue, Ends-guard}
use promptnet.Store.Commits.{log}
use promptnet.Store.Env.{Env}
use promptnet.Store.Exec.{
  Result, ok, err, not_found, branch_not_found, driver, constraint, bad_column, diverged,
}
use promptnet.Store.Hash.{hash}
use promptnet.Store.Table.{Commit, default_branch}
use promptnet.Validate.{Invalid}

abbrev pub Keeps {ℓ} : {A : Type ℓ} → Reply A × Node → Type 0
Keeps r = Ends (λ _. Unit) r

pub Keeps-continue {ℓ κ} :
    {A : Type ℓ} {B : Type κ} (r : Reply A × Node) (f : A → Serve B)
    → Keeps r
    → ((a : A) (s : Node) → AllValid s.cache → Keeps (f a s))
    → Keeps (continue r f)
Keeps-continue r f h k = Ends-continue (λ _. Unit) (λ _. Unit) r f h (λ a s _ v. k a s v)

pub Keeps-if {ℓ} :
    {A : Type ℓ} (b : Bool) (x y : Serve A) (s : Node)
    → Keeps (x s)
    → Keeps (y s)
    → Keeps ((if b then x else y) s)
Keeps-if true x y s h k = h
Keeps-if false x y s h k = k

-- two guards before the rest
pub Keeps-guards {ℓ} :
    {A : Type ℓ} (b w : Bool) (f : Serve A) (s : Node)
    → AllValid s.cache
    → ((n : Node) → AllValid n.cache → Keeps (f n))
    → Keeps ((guard b >> (guard w >> f)) s)
Keeps-guards b w f s v h =
    Keeps-continue (guard b s) _ (Ends-guard b s v)
      λ _ n u. Keeps-continue (guard w n) _ (Ends-guard w n u) λ _ o x. h o x

module _ (env : Env) (fl : Float) (wiring : Wiring fl) where
  commit_stored-Keeps :
      (uri branch h : Str) (label : Label) (r : Result Str) (s : Node)
      → AllValid s.cache
      → Keeps (commit_stored env fl wiring uri branch h label r s)
  unfolding commit_stored
  commit_stored-Keeps uri branch h label (err x) s v = v
  commit_stored-Keeps uri branch h label (ok c) s v =
      Keeps-if (branch == default_branch) _ _ s (tt, AllValid-without_entry uri s.cache v) (tt, v)

  publish_change-Keeps :
      (ctx : Ctx) (uri template : Str) (slots : List Str) (message : Str) (o : Option (Reply Label))
      (s : Node)
      → AllValid s.cache
      → Keeps (publish_change env fl wiring ctx uri template slots message o s)
  unfolding publish_change publish_commit
  publish_change-Keeps ctx uri template slots message none s v = (tt, v)
  publish_change-Keeps ctx uri template slots message (some (err x)) s v = v
  publish_change-Keeps ctx uri template slots message (some (ok label)) s v =
      commit_stored-Keeps uri default_branch (hash env template slots) label _ _ v

  pub publish_checked-Keeps :
      (ctx : Ctx) (uri template : Str) (slots : List Str) (branch message : Str)
      (o : Option Invalid) (s : Node)
      → AllValid s.cache
      → Keeps (publish_checked env fl wiring ctx uri template slots branch message o s)
  unfolding publish_checked publish_valid publish_commit
  publish_checked-Keeps ctx uri template slots branch message (some x) s v = v
  publish_checked-Keeps ctx uri template slots branch message none s v =
      Keeps-if (branch_or branch == default_branch) _ _ s
        (publish_change-Keeps ctx uri template slots message _ _ v)
        (commit_stored-Keeps uri (branch_or branch) (hash env template slots) _ _ _ v)

  first_hash-Keeps :
      (l : List Commit) (s : Node) → AllValid s.cache → Keeps (first_hash env fl wiring l s)
  unfolding first_hash
  first_hash-Keeps [] s v = v
  first_hash-Keeps (c ∷ l) s v = (tt, v)

  branch_logged-Keeps :
      (r : Result (List Commit)) (s : Node)
      → AllValid s.cache
      → Keeps (branch_logged env fl wiring r s)
  unfolding branch_logged
  branch_logged-Keeps (err e) s v = v
  branch_logged-Keeps (ok c) s v = first_hash-Keeps c s v

  pub branch_created-Keeps :
      (uri name : Str) (r : Result Unit0) (s : Node)
      → AllValid s.cache
      → Keeps (branch_created env fl wiring uri name r s)
  unfolding branch_created
  branch_created-Keeps uri name (err e) s v = v
  branch_created-Keeps uri name (ok _) s v = branch_logged-Keeps (log env uri name s.store).0 _ v

  pub merge_done-Keeps :
      (uri into : Str) (r : Result Str) (s : Node)
      → AllValid s.cache
      → Keeps (merge_done env fl wiring uri into r s)
  unfolding merge_done
  merge_done-Keeps uri into (err e) s v = v
  merge_done-Keeps uri into (ok h) s v =
      Keeps-if (into == default_branch) _ _ s (tt, AllValid-without_entry uri s.cache v) (tt, v)

  notify_moved-Keeps :
      (uri h : Str) (label : Reply Label) (s : Node)
      → AllValid s.cache
      → Keeps (notify_moved env fl wiring uri h label s)
  unfolding notify_moved
  notify_moved-Keeps uri h (err x) s v = v
  notify_moved-Keeps uri h (ok label) s v = (tt, v)

  branch_set-Keeps :
      (uri branch t : Str) (r : Result Commit) (s : Node)
      → AllValid s.cache
      → Keeps (branch_set env fl wiring uri branch t r s)
  unfolding branch_set
  branch_set-Keeps uri branch t (err not_found) s v = v
  branch_set-Keeps uri branch t (err branch_not_found) s v = v
  branch_set-Keeps uri branch t (err driver) s v = v
  branch_set-Keeps uri branch t (err constraint) s v = v
  branch_set-Keeps uri branch t (err bad_column) s v = v
  branch_set-Keeps uri branch t (err diverged) s v = v
  branch_set-Keeps uri branch t (ok c) s v =
      let dropped : Node = record s { cache = without_entry uri s.cache } in
      let w = AllValid-without_entry uri s.cache v in
      Keeps-if (branch == default_branch) _ _ s
        (Keeps-continue _ _
          (Keeps-if wiring.notifier _ _ dropped
            (notify_moved-Keeps uri c.version_hash (classify env fl wiring t c.template) dropped w)
            (tt, w))
          λ a n u. (tt, u))
        (tt, v)

  pub set_valid-Keeps :
      (uri branch h : Str) (s : Node)
      → AllValid s.cache
      → Keeps (set_valid env fl wiring uri branch h s)
  unfolding set_valid
  set_valid-Keeps uri branch h s v =
      Keeps-continue _ _ (Keeps-if (branch == default_branch) _ _ s (tt, v) (tt, v))
        λ t n u. branch_set-Keeps uri branch t _ _ u
