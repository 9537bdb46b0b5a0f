-- ===== src/Server/Coherent/Writes.antt =====
-- The handlers that change a branch keep the cache and the tables in agreement, failures included.
use promptnet.Prelude.{◌≡◌, refl, ap, Option, none, some, List, [], ◌∷◌, Str, ◌==◌, str_eq}
use promptnet.Semdiff.Float.{Float}
use promptnet.Server.Auth.{Reply, ok, err, Ctx, scope_of}
use promptnet.Server.Coherent.Entries.{
  Coherent, Holds, Coherent-reads, Holds-continue, Holds-if, Holds-moved,
}
use promptnet.Server.Handlers.{
  Wiring, commit_stored, publish_commit, publish_change, publish_valid, publish_checked, branch_or,
  branch_logged, branch_created, first_hash, merge_done, branch_set, set_valid, head_change,
  notify_moved, classify,
}
use promptnet.Server.Serve.{Node, Label, unclassified, Unit0, without_entry}
use promptnet.Store.Commits.{get, commit_on, create_branch, merge, set_branch, log}
use promptnet.Store.Env.{Env}
use promptnet.Store.Exec.{
  Result, ok, err, not_found, branch_not_found, driver, constraint, bad_column, diverged,
  StoreError, Db,
}
use promptnet.Store.Hash.{hash}
use promptnet.Store.Methods.{db-get, commit_on-Ensures, merge-Ensures, set_branch-Ensures}
use promptnet.Store.Moves.{
  Moves, commit_on-Moves, merge-Moves, set_branch-Moves, create_branch-reads,
}
use promptnet.Store.Reads.{db-log}
use promptnet.Store.Table.{Commit, default_branch, read_prompt}
use promptnet.Validate.{Invalid}

module _ (env : Env) (fl : Float) (wiring : Wiring fl) where
  -- tables that an error left as they were
  kept :
      (s : Node) (d : Db)
      → s.store.db ≡ d
      → Coherent env s.cache d
      → Coherent env s.cache s.store.db
  kept s d same = Coherent-reads env s.cache d s.store.db (λ j. ap (read_prompt env j) same)

  commit_stored-Holds :
      (uri branch h : Str) (label : Label) (r : Result Str) (s : Node) (d : Db)
      → Coherent env s.cache d
      → ((c : Str) → r ≡ ok c → Moves env uri branch d s.store.db)
      → ((e : StoreError) → r ≡ err e → s.store.db ≡ d)
      → Holds env (commit_stored env fl wiring uri branch h label r s)
  unfolding commit_stored
  commit_stored-Holds uri branch h label (err x) s d c moves same = kept s d (same x refl) c
  commit_stored-Holds uri branch h label (ok v) s d c moves same =
      Holds-moved env uri branch _ _ s d c (moves v refl) (λ w. w) (λ w. w)

  publish_commit-Holds :
      (ctx : Ctx) (uri template : Str) (slots : List Str) (branch message : Str) (label : Label)
      (s : Node)
      → Coherent env s.cache s.store.db
      → Holds env (publish_commit env fl wiring ctx uri template slots branch message label s)
  unfolding publish_commit
  publish_commit-Holds ctx uri template slots branch message label s c =
      let run = commit_on env uri branch template slots (scope_of ctx) message s.store in
      commit_stored-Holds uri branch (hash env template slots) label run.0
        (record s { store = run.1 }) s.store.db c
        (λ h e. commit_on-Moves env uri branch template slots (scope_of ctx) message h s.store e)
        (λ x e.
          (commit_on-Ensures env s.store.db uri branch template slots (scope_of ctx) message).fails
            s.store x refl e)

  publish_change-Holds :
      (ctx : Ctx) (uri template : Str) (slots : List Str) (message : Str) (o : Option (Reply Label))
      (s : Node)
      → Coherent env s.cache s.store.db
      → Holds env (publish_change env fl wiring ctx uri template slots message o s)
  unfolding publish_change
  publish_change-Holds ctx uri template slots message none s c = c
  publish_change-Holds ctx uri template slots message (some (err x)) s c = c
  publish_change-Holds ctx uri template slots message (some (ok label)) s c =
      publish_commit-Holds ctx uri template slots default_branch message label s c

  pub publish_checked-Holds :
      (ctx : Ctx) (uri template : Str) (slots : List Str) (branch message : Str)
      (o : Option Invalid) (s : Node)
      → Coherent env s.cache s.store.db
      → Holds env (publish_checked env fl wiring ctx uri template slots branch message o s)
  unfolding publish_checked publish_valid
  publish_checked-Holds ctx uri template slots branch message (some x) s c = c
  publish_checked-Holds ctx uri template slots branch message none s c =
      let read = get env uri s.store in
      let after : Node = record s { store = read.1 } in
      Holds-if env (branch_or branch == default_branch) _ _ s
        (λ trunk.
          publish_change-Holds ctx uri template slots message
            (head_change env fl wiring (hash env template slots) template read.0) after
            (kept after s.store.db (db-get env uri s.store) c))
        (λ other.
          publish_commit-Holds ctx uri template slots (branch_or branch) message unclassified s c)

  first_hash-Holds :
      (l : List Commit) (s : Node)
      → Coherent env s.cache s.store.db
      → Holds env (first_hash env fl wiring l s)
  unfolding first_hash
  first_hash-Holds [] s c = c
  first_hash-Holds (x ∷ l) s c = c

  branch_logged-Holds :
      (r : Result (List Commit)) (s : Node)
      → Coherent env s.cache s.store.db
      → Holds env (branch_logged env fl wiring r s)
  unfolding branch_logged
  branch_logged-Holds (err e) s c = c
  branch_logged-Holds (ok l) s c = first_hash-Holds l s c

  branch_created-Holds :
      (uri name : Str) (r : Result Unit0) (s : Node)
      → Coherent env s.cache s.store.db
      → Holds env (branch_created env fl wiring uri name r s)
  unfolding branch_created
  branch_created-Holds uri name (err e) s c = c
  branch_created-Holds uri name (ok _) s c =
      let run = log env uri name s.store in
      let after : Node = record s { store = run.1 } in
      branch_logged-Holds run.0 after (kept after s.store.db (db-log env uri name s.store) c)

  pub create_branch-Holds :
      (uri name from : Str) (s : Node)
      → Coherent env s.cache s.store.db
      → Holds env (
          branch_created env fl wiring uri name
            (create_branch uri name from s.store).0
            (record s { store = (create_branch uri name from s.store).1 }))
  create_branch-Holds uri name from s c =
      let run = create_branch uri name from s.store in
      branch_created-Holds uri name run.0 (record s { store = run.1 })
        (Coherent-reads env s.cache s.store.db run.1.db
          (λ j. create_branch-reads env uri name from j s.store) c)

  merge_done-Holds :
      (uri into : Str) (r : Result Str) (s : Node) (d : Db)
      → Coherent env s.cache d
      → ((h : Str) → r ≡ ok h → Moves env uri into d s.store.db)
      → ((e : StoreError) → r ≡ err e → s.store.db ≡ d)
      → Holds env (merge_done env fl wiring uri into r s)
  unfolding merge_done
  merge_done-Holds uri into (err x) s d c moves same = kept s d (same x refl) c
  merge_done-Holds uri into (ok h) s d c moves same =
      Holds-moved env uri into _ _ s d c (moves h refl) (λ w. w) (λ w. w)

  pub merge-Holds :
      (uri into from author message : Str) (s : Node)
      → Coherent env s.cache s.store.db
      → Holds env (
          merge_done env fl wiring uri into
            (merge env uri into from author message s.store).0
            (record s { store = (merge env uri into from author message s.store).1 }))
  merge-Holds uri into from author message s c =
      let run = merge env uri into from author message s.store in
      merge_done-Holds uri into run.0 (record s { store = run.1 }) s.store.db c
        (λ h e. merge-Moves env uri into from author message h s.store e)
        (λ x e. (merge-Ensures env s.store.db uri into from author message).fails s.store x refl e)

  -- the notification changes neither the cache nor the tables
  notify_moved-Holds :
      (uri h : Str) (label : Reply Label) (s : Node)
      → Coherent env s.cache s.store.db
      → Holds env (notify_moved env fl wiring uri h label s)
  unfolding notify_moved
  notify_moved-Holds uri h (err x) s c = c
  notify_moved-Holds uri h (ok label) s c = c

  branch_set-Holds :
      (uri branch t : Str) (r : Result Commit) (s : Node) (d : Db)
      → Coherent env s.cache d
      → ((c : Commit) → r ≡ ok c → Moves env uri branch d s.store.db)
      → ((e : StoreError) → r ≡ err e → s.store.db ≡ d)
      → Holds env (branch_set env fl wiring uri branch t r s)
  unfolding branch_set
  branch_set-Holds uri branch t (err not_found) s d c moves same = kept s d (same _ refl) c
  branch_set-Holds uri branch t (err branch_not_found) s d c moves same = kept s d (same _ refl) c
  branch_set-Holds uri branch t (err driver) s d c moves same = kept s d (same _ refl) c
  branch_set-Holds uri branch t (err constraint) s d c moves same = kept s d (same _ refl) c
  branch_set-Holds uri branch t (err bad_column) s d c moves same = kept s d (same _ refl) c
  branch_set-Holds uri branch t (err diverged) s d c moves same = kept s d (same _ refl) c
  branch_set-Holds uri branch t (ok v) s d c moves same =
      let dropped : Node = record s { cache = without_entry uri s.cache } in
      Holds-moved env uri branch _ _ s d c (moves v refl)
        (λ w.
          Holds-continue env _ _
            (Holds-if env wiring.notifier _ _ dropped
              (λ _.
                notify_moved-Holds uri v.version_hash (classify env fl wiring t v.template) dropped
                  w)
              (λ _. w))
            (λ a n _ u. u))
        (λ w. w)

  pub set_valid-Holds :
      (uri branch h : Str) (s : Node)
      → Coherent env s.cache s.store.db
      → Holds env (set_valid env fl wiring uri branch h s)
  unfolding set_valid
  set_valid-Holds uri branch h s c =
      let read : Node = record s { store = (get env uri s.store).1 } in
      Holds-continue env _ _
        (Holds-if env (branch == default_branch) _ _ s
          (λ trunk. kept read s.store.db (db-get env uri s.store) c) (λ other. c))
        λ t n _ u.
          let run = set_branch env uri branch h n.store in
          branch_set-Holds uri branch t run.0 (record n { store = run.1 }) n.store.db u
            (λ v e. set_branch-Moves env uri branch h v n.store e)
            (λ x e. (set_branch-Ensures env n.store.db uri branch h).fails n.store x refl e)
