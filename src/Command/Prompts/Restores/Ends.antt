-- ===== src/Command/Prompts/Restores/Ends.antt =====
-- What the loop of restore does with the prompts of a backup.
use promptnet.Prelude.{
  ℕ, zero, suc, ◌+◌, ◌≤◌, ◌≡◌, refl, sym, ap, ◌∙◌, subst, none, some, List, [], ◌∷◌, Str, str_eq,
  arith, equal, equal_iff, inl, inr, Bool-cases, length, length-append,
}
use promptnet.Prelude.Assoc
use promptnet.Prelude.Assoc.{NoTwice}
use promptnet.Command.Prompts.{
  Decoded, eof, value, Json, RestoreExit, encode_all, restored, restore_from,
}
use promptnet.Command.Prompts.Puts.Writes.{Puts, put-Puts}
use promptnet.Store.Commits.{put}
use promptnet.Store.Env.{Env, EnvLaws}
use promptnet.Store.Exec.{ok, PromptRow, Db, State}
use promptnet.Store.Hash.{hash}
use promptnet.Store.Table.{Prompt, decode_prompt, read_prompt}
use promptnet.Command.Prompts.Restores.Rows.{JsonLaws, put_quiet, Reads, AllRead}

-- The prompts of the rows are served, all others as before, and the history is as it was.
pub record Restored (env env₂ : Env) (IsText : Str → Type 0) (l : List (Str × PromptRow))
    (before after : Db) : Type 0 where
  pub served :
      (u : Str) (row : PromptRow) (p : Prompt)
      → Assoc.get u l ≡ some row
      → decode_prompt env u row ≡ ok p
      → read_prompt env₂ u after ≡ ok p
  pub others :
      (u : Str) → Assoc.get u l ≡ none → read_prompt env₂ u after ≡ read_prompt env₂ u before
  pub commits_kept : after.commits ≡ before.commits
  pub refs_kept : after.refs ≡ before.refs

module _ (env env₂ : Env) {IsText : Str → Type 0} (laws : EnvLaws env₂ IsText) (json : Json)
    (coded : JsonLaws json IsText)
    (one_hash : (t : Str) (slots : List Str) → hash env₂ t slots ≡ hash env t slots) where
  first_served :
      (u : Str) (row : PromptRow) (p : Prompt) (l : List (Str × PromptRow)) (d₀ d₁ d₂ : Db)
      → Assoc.get u l ≡ none
      → Reads env IsText u row p
      → Puts env₂ p.uri p.template p.slots d₀ d₁
      → Restored env env₂ IsText l d₁ d₂
      → read_prompt env₂ u d₂ ≡ ok p
  first_served u row p l d₀ d₁ d₂ new r put rest =
      rest.others u new
      ∙ ap (λ x. read_prompt env₂ x d₁) (sym r.at_uri)
      ∙ put.served
      ∙ ap
          (λ v.
            ok (record { uri = p.uri; template = p.template; slots = p.slots; version_hash = v }))
          (one_hash p.template p.slots ∙ sym r.hashed)

  -- one prompt more in front of the rows
  Restored-cons :
      (u : Str) (row : PromptRow) (p : Prompt) (l : List (Str × PromptRow)) (d₀ d₁ d₂ : Db)
      → Assoc.get u l ≡ none
      → Reads env IsText u row p
      → Puts env₂ p.uri p.template p.slots d₀ d₁
      → Restored env env₂ IsText l d₁ d₂
      → Restored env env₂ IsText ((u, row) ∷ l) d₀ d₂
  unfolding Assoc.get
  Restored-cons u row p l d₀ d₁ d₂ new r put rest = record {
    served = λ v other q e dec. elim (Bool-cases (equal u v)) [
      | inl same ↦
          let at = (equal_iff u v).0 same in
          let is : row ≡ other = ground (arith, e, same) in
          let one : ok p ≡ ok q =
            sym r.decoded
            ∙ ap (decode_prompt env u) is
            ∙ ap (λ x. decode_prompt env x other) at
            ∙ dec in
          ap (λ x. read_prompt env₂ x d₂) (sym at)
          ∙ first_served u row p l d₀ d₁ d₂ new r put rest
          ∙ one
      | inr differ ↦ rest.served v other q (ground (arith, e, differ)) dec
    ];
    others = λ v e.
        rest.others v (ground (arith, e))
        ∙ put.others v (ground (arith, e, r.at_uri, equal_iff u v));
    commits_kept = rest.commits_kept ∙ put.commits_kept;
    refs_kept = rest.refs_kept ∙ put.refs_kept;
  }

  pub record Ends (l : List (Str × PromptRow)) (n : ℕ) (before : Db) (out : RestoreExit × State)
      : Type 0 where
    pub exit : out.0 ≡ restored n
    pub tables : Restored env env₂ IsText l before out.1.db

  pub restore_from-Ends :
      (l : List (Str × PromptRow)) (ps : List Prompt) (fuel n : ℕ) (d : Decoded) (t : State)
      → AllRead env IsText l ps
      → NoTwice l
      → length ps ≤ fuel
      → d ≡ json.decode (encode_all json ps)
      → t.io ≡ []
      → Ends l (n + length ps) t.db (restore_from env₂ json fuel n d t)
  unfolding restore_from
  restore_from-Ends [] [] fuel n d t all once f e io =
      let stop : d ≡ eof = e ∙ (unfold encode_all in coded.decode-nil) in
      subst (λ x. Ends [] (n + 0) t.db (restore_from env₂ json fuel n x t)) (sym stop)
        (record {
          exit = unfold restore_from in ap restored (omega arith);
          tables = record {
            served = λ u row p e. absurd (unfold Assoc.get in ground (arith, e));
            others = λ u e. refl;
            commits_kept = refl;
            refs_kept = refl;
          };
        })
  restore_from-Ends [] (p ∷ ps) fuel n d t all once f e io = absurd all
  restore_from-Ends (x ∷ l) [] fuel n d t all once f e io = absurd all
  restore_from-Ends ((u, row) ∷ l) (p ∷ ps) zero n d t all once f e io = absurd (omega (arith, f))
  restore_from-Ends ((u, row) ∷ l) (p ∷ ps) (suc fuel) n d t all once f e io =
      let (left, first, behind) = coded.decode-encode p (encode_all json ps) all.0.text in
      let is : d ≡ value p left = e ∙ (unfold encode_all in first) in
      let out = put env₂ p.uri p.template p.slots t in
      let done = put_quiet env₂ p.uri p.template p.slots t io in
      let next =
        restore_from-Ends l ps fuel (suc n) (json.decode left) out.1 all.1 once.1 (omega (arith, f))
          behind done.1 in
      let shown = put-Puts env₂ laws p.uri p.template p.slots t all.0.text.slots done.0 in
      let step : restore_from env₂ json (suc fuel) n d t
          ≡ restore_from env₂ json fuel (suc n) (json.decode left) out.1 =
        ap (λ y. restore_from env₂ json (suc fuel) n y t) is
        ∙ (unfold restore_from in ground (arith, done.0)) in
      subst (Ends ((u, row) ∷ l) (n + length (p ∷ ps)) t.db) (sym step) (record {
        exit = next.exit ∙ ap restored (omega arith);
        tables = Restored-cons u row p l t.db out.1.db _ once.0 all.0 shown next.tables;
      })

  pub length-encode_all : (ps : List Prompt) → length ps ≤ length (encode_all json ps)
  unfolding encode_all
  length-encode_all [] = omega arith
  length-encode_all (p ∷ ps) = omega (
    arith,
    length-append (json.encode p) (encode_all json ps),
    coded.encode-positive p,
    length-encode_all ps,
  )
