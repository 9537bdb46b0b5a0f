-- ===== src/Store/Methods.antt =====
-- The effects of `Put`, `Commit`, `Branch`, `Merge` and `SetBranch` on the tables.
use promptnet.Prelude.{
  ◌≡◌, refl, sym, ap, ◌∙◌, none, List, [], Str, ◌==◌, str_eq, arith, Bool-cases, inl, inr, subst,
  equal_iff,
}
use promptnet.Store.Env.{Env}
use promptnet.Store.Exec.{ok, not_found, PromptRow, Db, State, pure, ◌>>◌}
use promptnet.Store.Hash.{hash}
use promptnet.Store.Keeps.{
  Ensures, Ensures-pure, Ensures-raise, Ensures_still, Ensures-modify, Ensures-bind, Ensures-given,
  Ensures-weaken, Ensures-statement, Ensures-query, Ensures-transaction, db-statement,
  statement_result,
}
use promptnet.Store.Table.{
  default_branch, Commit, set_ref, get_ref, put_prompt, read_commit, read_tip,
}
use promptnet.Store.Commits.{
  get, tip, get_commit, put, parent_or_root, commit_on, create_ref, create_branch, merge_message,
  merge, check_uri, reseal, set_branch,
}
use promptnet.Store.Effects.{Sealed, Recorded, serve, Ensures-seal, commit-Ensures}

pub db-get : (env : Env) (uri : Str) (s : State) → (get env uri s).1.db ≡ s.db
unfolding get
db-get env uri s = ground (arith, db-statement s)

pub db-tip : (uri branch : Str) (s : State) → (tip uri branch s).1.db ≡ s.db
unfolding tip
db-tip uri branch s = ground (arith, db-statement s)

pub tip_ok :
    (uri branch h : Str) (s : State) → (tip uri branch s).0 ≡ ok h → read_tip uri branch s.db ≡ ok h
unfolding tip
tip_ok uri branch h s e = ground (arith, db-statement s)

pub tip_root :
    (uri branch p : Str) (s : State)
    → parent_or_root (tip uri branch s).0 ≡ ok p
    → parent_or_root (read_tip uri branch s.db) ≡ ok p
unfolding tip parent_or_root
tip_root uri branch p s e = ground (arith, db-statement s, statement_result s)

module _ (d₀ : Db) where
  abbrev Same : Db → Type 0
  Same d = d ≡ d₀

  Ensures-tip :
      (uri branch : Str)
      → Ensures Same Same (tip uri branch) (λ h d. Same d × (read_tip uri branch d₀ ≡ ok h))
  unfolding tip
  Ensures-tip uri branch =
      Ensures-query (read_tip uri branch) (λ d p. p) (λ h d e p. (p, rw (← p) e))

  pub record Branched (uri name from : Str) (after : Db) : Type 0 where
    pub src : Str
    pub from_tip : read_tip uri from d₀ ≡ ok src
    pub fresh : get_ref uri name d₀ ≡ none
    pub tables : after ≡ set_ref uri name src d₀

  Ensures-create_ref :
      (uri name src : Str)
      → Ensures Same Same
          (create_ref uri name src)
          (λ _ d. (get_ref uri name d₀ ≡ none) × (d ≡ set_ref uri name src d₀))
  unfolding create_ref
  Ensures-create_ref uri name src = record {
    gives = λ s a p r.
        ground (arith, db-statement s, p, ap (get_ref uri name) p, ap (set_ref uri name src) p);
    fails = λ s e p r. ground (arith, db-statement s, p);
  }

  -- A `Branch` that returns an error leaves every table as it was, whichever statement failed. One
  -- that succeeds has added the one branch, which did not exist, at the tip of the source branch.
  pub create_branch-Ensures :
      (uri name from : Str)
      → Ensures Same Same (create_branch uri name from) (λ _. Branched uri name from)
  unfolding create_branch
  create_branch-Ensures uri name from = Ensures-bind {0, 0} _ _ (Ensures-tip uri from) λ src.
      Ensures-given _ λ found.
        Ensures-weaken _
          (λ a d p. record { src = src; from_tip = found; fresh = p.0; tables = p.1 })
          (Ensures-create_ref uri name src)

module _ (env : Env) (d₀ : Db) where
  abbrev Still : Db → Type 0
  Still d = d ≡ d₀

  Ensures-get_commit :
      (h : Str)
      → Ensures Still Still (get_commit env h) (λ c d. Still d × (read_commit env h d₀ ≡ ok c))
  unfolding get_commit
  Ensures-get_commit h = Ensures-query (read_commit env h) (λ d p. p) (λ c d e p. (p, rw (← p) e))

  pub record Stored (uri template : Str) (slots : List Str) (version_hash : Str) (row : PromptRow)
      : Type 0 where
    pub template_column : Sealed env template row.template
    pub slots_column : Sealed env (env.marshal slots) row.slots
    pub version : row.version_hash ≡ version_hash

  pub put-Ensures :
      (uri template : Str) (slots : List Str)
      → Ensures Still Still (put env uri template slots) (λ _ d.
        (row : PromptRow) × Stored uri template slots (hash env template slots) row
        × (d ≡ put_prompt uri row d₀))
  unfolding put
  put-Ensures uri template slots =
      Ensures-bind {0, 0} _ _ (Ensures-seal env template (λ d p. p)) λ t. Ensures-given _ λ ht.
        Ensures-bind {0, 0} _ _ (Ensures-seal env (env.marshal slots) (λ d p. p)) λ l.
          Ensures-given _ λ hl. Ensures-bind {0, 0} _ _ (Ensures-statement (λ d p. p)) λ _.
            Ensures-modify _ (λ d p. (
              _,
              record { template_column = ht; slots_column = hl; version = refl },
              ap (put_prompt uri _) p,
            ))

  pub record CommittedOn (uri branch template : Str) (slots : List Str) (author message h : Str)
      (after : Db) : Type 0 where
    pub parent : Str
    pub parent_is : parent_or_root (read_tip uri branch d₀) ≡ ok parent
    pub recorded : Recorded env uri branch template slots parent [] author message d₀ h after

  -- A `Commit` that returns an error leaves every table as it was, whichever statement failed. One
  -- that succeeds has moved the branch and on the trunk the served prompt to one commit, whose first
  -- parent is the tip that the branch had, or none for a branch without a commit. That commit is
  -- added in front of the others if its hash is new; if there is a commit of this hash, none is added.
  pub commit_on-Ensures :
      (uri branch template : Str) (slots : List Str) (author message : Str)
      → Ensures Still Still
          (commit_on env uri branch template slots author message)
          (CommittedOn uri branch template slots author message)
  unfolding commit_on
  commit_on-Ensures uri branch template slots author message =
      Ensures-bind {0, 0} {Q = λ p d. Still d × (parent_or_root (read_tip uri branch d₀) ≡ ok p)} _
        _
        (Ensures_still _ (db-tip uri branch) (λ d p. p)
          (λ s p e q. (q, rw (← q) (tip_root uri branch p s e))))
        λ parent. Ensures-given _ λ found.
          Ensures-weaken _ (λ h d p. record { parent = parent; parent_is = found; recorded = p })
            (commit-Ensures env d₀ uri branch template slots parent [] author message)

  pub record Merged (uri into from author message h : Str) (after : Db) : Type 0 where
    pub dst : Str
    pub src_hash : Str
    pub src : Commit
    pub into_tip : read_tip uri into d₀ ≡ ok dst
    pub from_tip : read_tip uri from d₀ ≡ ok src_hash
    pub theirs : read_commit env src_hash d₀ ≡ ok src
    pub recorded :
        Recorded env uri into src.template src.slots dst src_hash author
          (merge_message message from into)
          d₀
          h
          after

  -- A `Merge` that returns an error leaves every table as it was, whichever statement failed. One
  -- that succeeds has moved the target and on the trunk the served prompt to one commit, with the
  -- content of the source's tip and the two tips as its parents. That commit is added in front of the
  -- others if its hash is new; if there is a commit of this hash, none is added.
  pub merge-Ensures :
      (uri into from author message : Str)
      → Ensures Still Still
          (merge env uri into from author message)
          (Merged uri into from author message)
  unfolding merge
  merge-Ensures uri into from author message =
      Ensures-bind {0, 0} _ _ (Ensures-tip d₀ uri into) λ dst. Ensures-given _ λ h₁.
        Ensures-bind {0, 0} _ _ (Ensures-tip d₀ uri from) λ src_hash. Ensures-given _ λ h₂.
          Ensures-bind {0, 0} _ _ (Ensures-get_commit src_hash) λ src. Ensures-given _ λ h₃.
            Ensures-weaken _
              (λ h d p. record {
                dst = dst;
                src_hash = src_hash;
                src = src;
                into_tip = h₁;
                from_tip = h₂;
                theirs = h₃;
                recorded = p;
              })
              (commit-Ensures env d₀ uri into src.template src.slots dst src_hash author _)

  Ensures-check_uri :
      (uri : Str) (c : Commit)
      → Ensures Still Still (check_uri uri c) (λ b d. Still d × ((b ≡ c) × (c.uri ≡ uri)))
  Ensures-check_uri uri c = elim (Bool-cases (c.uri == uri)) [
    | inl same ↦ rw same (Ensures-pure c (λ d p. (p, (refl, (equal_iff c.uri uri).0 same))))
    | inr other ↦ rw other (Ensures-raise not_found (λ d p. p))
  ]

  pub record Pointed (uri branch h : Str) (c : Commit) (after : Db) : Type 0 where
    pub found : read_commit env h d₀ ≡ ok c
    pub of_uri : c.uri ≡ uri
    pub row : PromptRow
    pub stored : branch ≡ default_branch → Stored uri c.template c.slots c.version_hash row
    pub tables : after ≡ serve uri branch row (set_ref uri branch h d₀)

  Ensures-reseal :
      (uri branch : Str) (c : Commit) (d₁ : Db)
      → Ensures
          (λ _. Unit)
          (λ d. d ≡ d₁)
          (do reseal env uri branch c; pure c)
          (λ a d.
            (a ≡ c)
            × (row : PromptRow) × (branch ≡ default_branch
                → Stored uri c.template c.slots c.version_hash row)
            × (d ≡ serve uri branch row d₁))
  unfolding reseal serve
  Ensures-reseal uri branch c d₁ = elim (Bool-cases (branch == default_branch)) [
    | inl trunk ↦ rw trunk (
        Ensures-bind {0, 0} _ _
          (Ensures-bind {0, 0} _ _ (Ensures-seal env c.template (λ d p. tt)) λ t.
            Ensures-given _ λ ht.
              Ensures-bind {0, 0} _ _ (Ensures-seal env (env.marshal c.slots) (λ d p. tt)) λ l.
                Ensures-given _ λ hl. Ensures-bind {0, 0} _ _ (Ensures-statement (λ d p. tt)) λ _.
                  Ensures-modify
                    {Q = λ _ d.
                      (row : PromptRow) × (branch ≡ default_branch
                        → Stored uri c.template c.slots c.version_hash row)
                      × (d ≡ put_prompt uri row d₁)}
                    _
                    (λ d p. (
                      _,
                      (λ _. record { template_column = ht; slots_column = hl; version = refl }),
                      ap (put_prompt uri _) p,
                    )))
          (λ _. Ensures-pure c (λ d p. (refl, p.0, p.1, p.2))))
    | inr other ↦ rw other (
        Ensures-bind {0, 0} _ _ (Ensures-pure {Q = λ _ d. d ≡ d₁} tt (λ d p. p)) λ _.
          Ensures-pure c (λ d p. (
            refl,
            record { template = []; slots = []; version_hash = [] },
            (λ trunk. absurd (ground (arith, equal_iff branch default_branch))),
            p,
          )))
  ]

  -- A `SetBranch` that returns an error leaves every table as it was, whichever statement failed. One
  -- that succeeds has moved the branch to a commit of the same prompt, which it returns, and on the
  -- trunk sealed the commit's content anew as the served prompt.
  pub set_branch-Ensures :
      (uri branch h : Str)
      → Ensures Still Still (set_branch env uri branch h) (Pointed uri branch h)
  unfolding set_branch
  set_branch-Ensures uri branch h = Ensures-bind {0, 0} _ _ (Ensures-get_commit h) λ found.
      Ensures-given _ λ is. Ensures-bind {0, 0} _ _ (Ensures-check_uri uri found) λ c.
        Ensures-given _ λ checked.
          Ensures-transaction _ (λ d p. p)
            (Ensures-bind {0, 0} _ _ (Ensures-statement (λ d p. tt)) λ _.
              Ensures-bind {0, 0} _ _
                (Ensures-modify {Q = λ _ d. d ≡ set_ref uri branch h d₀} _
                  (λ d p. ap (set_ref uri branch h) p))
                λ _.
                  Ensures-weaken _
                    (λ a d p. record {
                      found = is ∙ ap ok (sym (p.0 ∙ checked.0));
                      of_uri = ap (λ (x : Commit). x.uri) (p.0 ∙ checked.0) ∙ checked.1;
                      row = p.1;
                      stored = λ trunk.
                          subst (λ x. Stored uri x.template x.slots x.version_hash p.1) (sym p.0)
                            (p.2 trunk);
                      tables = p.3;
                    })
                    (Ensures-reseal uri branch c (set_ref uri branch h d₀)))
