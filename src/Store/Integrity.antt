-- ===== src/Store/Integrity.antt =====
-- Every method keeps the content of the rows sound.
use promptnet.Prelude.{
  ◌≡◌, refl, sym, ◌∙◌, subst, List, [], ◌∷◌, Str, str_eq, equal, equal_iff, arith, Bool-cases,
  Option-cases, inl, inr,
}
use promptnet.Prelude.Assoc
use promptnet.Store.Calls.{
  Call, put_prompt_at, commit_at, branch_at, merge_at, set_branch_at, run, run_all, run_all-IsWf,
  Ensures-keeps,
}
use promptnet.Store.Commits.{log}
use promptnet.Store.Content.{
  HasContent, IsSound, decode_prompt-Holds, decode_commit-Holds, insert_commit-IsSound,
  set_ref-IsSound, put_prompt-IsSound,
}
use promptnet.Store.Effects.{Recorded, put_commit, serve, prompt_of}
use promptnet.Store.Env.{Env, EnvLaws, AllText}
use promptnet.Store.Exec.{ok, PromptRow, CommitRow, Db, State}
use promptnet.Store.Hash.{hash}
use promptnet.Store.History.{IsWf, find_of_known}
use promptnet.Store.Log.{Mainline, AllReadable, log-Mainline}
use promptnet.Store.Methods.{
  Stored, put-Ensures, commit_on-Ensures, create_branch-Ensures, merge-Ensures, set_branch-Ensures,
}
use promptnet.Store.Table.{
  default_branch, Prompt, Commit, find, get_ref, read_prompt, read_commit, read_tip,
  read_commit-find, read_prompt-get, read_prompt-inv,
}

module _ (env : Env) {IsText : Str → Type 0} (laws : EnvLaws env IsText) where
  abbrev Sound : Db → Type 0
  Sound = IsSound env laws

  serve-IsSound :
      (uri branch : Str) (row : PromptRow) (db : Db)
      → (branch ≡ default_branch → HasContent env laws row)
      → Sound db
      → Sound (serve uri branch row db)
  unfolding serve
  serve-IsSound uri branch row db c s = elim (Bool-cases (equal branch default_branch)) [
    | inl trunk ↦
        rw trunk
          (put_prompt-IsSound env laws uri row db (c ((equal_iff branch default_branch).0 trunk)) s)
    | inr other ↦ rw other s
  ]

  put_commit-IsSound :
      (branch : Str) (row : CommitRow) (db : Db)
      → HasContent env laws (prompt_of row)
      → Sound db
      → Sound (put_commit branch row db)
  unfolding put_commit
  put_commit-IsSound branch row db c s =
      serve-IsSound row.uri branch (prompt_of row) _ (λ _. c)
        (set_ref-IsSound env laws row.uri branch row.hash _
          (insert_commit-IsSound env laws row db c s))

  Recorded-IsSound :
      {uri branch template : Str} {slots : List Str} {parent parent2 author message h : Str}
      {d₀ d : Db}
      → AllText IsText slots
      → Sound d₀
      → Recorded env uri branch template slots parent parent2 author message d₀ h d
      → Sound d
  Recorded-IsSound {branch} {template} {slots} {d₀} text s a = subst Sound (sym a.tables) (
      put_commit-IsSound branch a.row d₀
        (
          template,
          slots,
          record {
            text = text;
            template_column = a.template_column;
            slots_column = a.slots_column;
            version = a.version;
          },
        )
        s)

  -- a commit that is read has the content of a sound row
  pub read_commit-content :
      (h : Str) (c : Commit) (db : Db)
      → Sound db
      → read_commit env h db ≡ ok c
      → AllText IsText c.slots × (c.version_hash ≡ hash env c.template c.slots)
  unfolding read_commit
  read_commit-content h c db s e = elim (Option-cases (find h db.commits)) [
    | inl nothing ↦ absurd (ground arith)
    | inr (row, found) ↦
        let (template, slots, holds) = s.commits h row found in
        let (c', decoded, t, l, v, _, _) = decode_commit-Holds env laws row template slots holds in
        let is : c' ≡ c = ground arith in
        subst (λ x. AllText IsText x.slots × (x.version_hash ≡ hash env x.template x.slots)) is
          (subst (AllText IsText) (sym l) holds.text, ground (arith, holds.version))
  ]

  read_prompt-content :
      (uri : Str) (p : Prompt) (db : Db)
      → Sound db
      → read_prompt env uri db ≡ ok p
      → p.version_hash ≡ hash env p.template p.slots
  read_prompt-content uri p db s e =
      let (row, found) = read_prompt-inv env uri db p e in
      let (template, slots, holds) = s.prompts uri row found in
      let is =
        sym (
          read_prompt-get env uri db row found
          ∙ decode_prompt-Holds env laws uri row template slots holds)
        ∙ e in
      ground (arith, is, holds.version)

  -- the slots that a call brings are text
  abbrev pub TextCall : Call → Type 0
  TextCall (put_prompt_at uri template slots) = AllText IsText slots
  TextCall (commit_at uri branch template slots author message) = AllText IsText slots
  TextCall (branch_at uri name from) = Unit
  TextCall (merge_at uri into from author message) = Unit
  TextCall (set_branch_at uri branch h) = Unit

  abbrev pub TextCalls : List Call → Type 0
  TextCalls [] = Unit
  TextCalls (c ∷ calls) = TextCall c × TextCalls calls

  pub Stored-content :
      {uri template : Str} {slots : List Str} {v : Str} {row : PromptRow} {d₀ : Db}
      → AllText IsText slots
      → v ≡ hash env template slots
      → Stored env d₀ uri template slots v row
      → HasContent env laws row
  Stored-content {template} {slots} text v st = (
    template,
    slots,
    record {
      text = text;
      template_column = st.template_column;
      slots_column = st.slots_column;
      version = st.version ∙ v;
    },
  )

  run-IsSound : (c : Call) (s : State) → TextCall c → Sound s.db → Sound (run env c s).db
  unfolding run
  run-IsSound (put_prompt_at uri template slots) s t w =
      Ensures-keeps Sound _ _ s (put-Ensures env s.db uri template slots)
        (λ a d q.
          subst Sound (sym q.2)
            (put_prompt-IsSound env laws uri q.0 s.db (Stored-content {uri = uri} t refl q.1) w))
        w
  run-IsSound (commit_at uri branch template slots author message) s t w =
      Ensures-keeps Sound _ _ s
        (commit_on-Ensures env s.db uri branch template slots author message)
        (λ h d q. Recorded-IsSound t w q.recorded) w
  run-IsSound (branch_at uri name from) s t w =
      Ensures-keeps Sound _ _ s (create_branch-Ensures s.db uri name from)
        (λ a d q. subst Sound (sym q.tables) (set_ref-IsSound env laws uri name q.src s.db w)) w
  run-IsSound (merge_at uri into from author message) s t w =
      Ensures-keeps Sound _ _ s (merge-Ensures env s.db uri into from author message)
        (λ h d q.
          Recorded-IsSound (read_commit-content q.src_hash q.src s.db w q.theirs).0 w q.recorded)
        w
  run-IsSound (set_branch_at uri branch h) s t w =
      Ensures-keeps Sound _ _ s (set_branch-Ensures env s.db uri branch h)
        (λ c d q.
          let content = read_commit-content h c s.db w q.found in
          subst Sound (sym q.tables) (
            serve-IsSound uri branch q.row _
              (λ trunk. Stored-content {uri = uri} content.0 content.1 (q.stored trunk))
              (set_ref-IsSound env laws uri branch h s.db w)))
        w

  pub run_all-IsSound :
      (calls : List Call) (s : State)
      → TextCalls calls
      → Sound s.db
      → Sound (run_all env calls s).db
  unfolding run_all
  run_all-IsSound [] s t w = w
  run_all-IsSound (c ∷ calls) s t w =
      run_all-IsSound calls (run env c s) t.1 (run-IsSound c s t.0 w)

-- a database that was just migrated
abbrev pub empty_db : Db
empty_db = record { prompts = []; commits = []; refs = [] }

module _ (env : Env) {IsText : Str → Type 0} (laws : EnvLaws env IsText) (calls : List Call)
    (s : State) (from_empty : s.db ≡ empty_db) (text : TextCalls env laws calls) where
  abbrev pub later : State
  later = run_all env calls s

  pub later-IsSound : IsSound env laws later.db
  later-IsSound = run_all-IsSound env laws calls s text (
      subst (IsSound env laws) (sym from_empty) (record {
        commits = λ h row e. unfold find in cc;
        prompts = λ uri row e. unfold Assoc.get in cc;
      }))

  pub later-IsWf : IsWf later.db
  later-IsWf = run_all-IsWf env laws calls s (
      subst IsWf (sym from_empty)
        (record { lineage = tt; tips_known = λ u b h e. unfold get_ref Assoc.get in cc }))

  pub later-AllReadable : AllReadable env later.db
  later-AllReadable h k =
      let (row, found) = find_of_known h later.db.commits k in
      let (template, slots, holds) = later-IsSound.commits h row found in
      let (c, decoded, _, _, _, _, _) = decode_commit-Holds env laws row template slots holds in
      (c, read_commit-find env h later.db row found ∙ decoded)

  -- From an empty database, after any calls whose slots are text, wherever the database failed them:
  -- every prompt and every commit that can be read has as its version hash the hash of its own
  -- template and slots.
  pub version_hash_integrity :
      ((uri : Str) (p : Prompt)
        → read_prompt env uri later.db ≡ ok p
        → p.version_hash ≡ hash env p.template p.slots)
      × ((h : Str) (c : Commit)
          → read_commit env h later.db ≡ ok c
          → c.version_hash ≡ hash env c.template c.slots)
  version_hash_integrity = (
    (λ uri p e. read_prompt-content env laws uri p later.db later-IsSound e),
    (λ h c e. (read_commit-content env laws h c later.db later-IsSound e).1),
  )

  -- From an empty database, after any calls whose slots are text, wherever the database failed them:
  -- while no statement fails any more, `Log` of every branch returns its first-parent chain down to
  -- a root.
  pub log_total :
      (uri branch h : Str)
      → later.io ≡ []
      → read_tip uri branch later.db ≡ ok h
      → (chain : List Commit) × (log env uri branch later ≡ (ok chain, later))
        × Mainline env later.db h chain
  log_total uri branch h quiet tip =
      log-Mainline env uri branch h later quiet later-IsWf later-AllReadable tip
