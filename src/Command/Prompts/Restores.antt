-- ===== src/Command/Prompts/Restores.antt =====
-- A backup that is restored.
pub mod Rows
pub mod Ends
use promptnet.Prelude.{
  ℕ, suc, ◌≡◌, refl, sym, ap, ◌∙◌, none, List, [], Str, str_eq, arith, inl, inr, Option-cases,
  length,
}
use promptnet.Prelude.Assoc
use promptnet.Prelude.Assoc.{NoTwice}
use promptnet.Command.Prompts.{Json, encode_all, backup, restored, restore}
use promptnet.Store.Content.{IsSound, decode_prompt-Holds}
use promptnet.Store.Env.{Env, EnvLaws}
use promptnet.Store.Exec.{ok, err, not_found, Db, State}
use promptnet.Store.Hash.{hash}
use promptnet.Store.Listing.{Sql, dump, decode_all}
use promptnet.Store.Log.{statement_quiet}
use promptnet.Store.Table.{Prompt, read_prompt, read_prompt-get, read_prompt-inv}
use promptnet.Command.Prompts.Restores.Rows.{
  TextPrompt, JsonLaws, OrderLaws, Readable, decode_all-AllRead,
}
use promptnet.Command.Prompts.Restores.Ends.{Restored, restore_from-Ends, length-encode_all}

dump_quiet :
    (env : Env) (sql : Sql) (s : State)
    → s.io ≡ []
    → dump env sql s ≡ (decode_all env (sql.order_by_uri s.db.prompts), s)
unfolding dump
dump_quiet env sql s e = ground (arith, statement_quiet s e)

-- Every prompt of `source` is served with its version hash, every other prompt as before, and the
-- history is as it was.
pub record Copied (env env₂ : Env) (source before after : Db) : Type 0 where
  pub served :
      (u : Str) (p : Prompt) → read_prompt env u source ≡ ok p → read_prompt env₂ u after ≡ ok p
  pub others :
      (u : Str)
      → read_prompt env u source ≡ err not_found
      → read_prompt env₂ u after ≡ read_prompt env₂ u before
  pub commits_kept : after.commits ≡ before.commits
  pub refs_kept : after.refs ≡ before.refs

module _ (env env₂ : Env) {IsText : Str → Type 0} (laws : EnvLaws env IsText)
    (laws₂ : EnvLaws env₂ IsText) (sql : Sql) (ordered : OrderLaws sql) (json : Json)
    (coded : JsonLaws json IsText) where
  sound-Readable :
      (d : Db)
      → IsSound env laws d
      → ((u : Str) (p : Prompt) → read_prompt env u d ≡ ok p → TextPrompt IsText p)
      → Readable env IsText d.prompts
  sound-Readable d sound text u row e =
      let (template, slots, holds) = sound.prompts u row e in
      let dec = decode_prompt-Holds env laws u row template slots holds in
      (
        record { uri = u; template = template; slots = slots; version_hash = row.version_hash },
        record {
          decoded = dec;
          text = text u _ (read_prompt-get env u d row e ∙ dec);
          at_uri = refl;
          hashed = holds.version;
        },
      )

  rows_missing :
      (u : Str) (d : Db)
      → IsSound env laws d
      → read_prompt env u d ≡ err not_found
      → Assoc.get u d.prompts ≡ none
  rows_missing u d sound e = elim (Option-cases (Assoc.get u d.prompts)) [
    | inl nothing ↦ nothing
    | inr (row, found) ↦
        let (template, slots, holds) = sound.prompts u row found in
        absurd (
          ground (
            arith,
            read_prompt-get env u d row found,
            e,
            decode_prompt-Holds env laws u row template slots holds,
          ))
  ]

  Restored-Copied :
      (d before after : Db)
      → IsSound env laws d
      → NoTwice d.prompts
      → Restored env env₂ IsText (sql.order_by_uri d.prompts) before after
      → Copied env env₂ d before after
  Restored-Copied d before after sound once r = record {
    served = λ u p e.
        let (row, found) = read_prompt-inv env u d p e in
        r.served u row p (ordered.get-order_by_uri d.prompts u once ∙ found)
          (sym (read_prompt-get env u d row found) ∙ e);
    others =
        λ u e. r.others u (ordered.get-order_by_uri d.prompts u once ∙ rows_missing u d sound e);
    commits_kept = r.commits_kept;
    refs_kept = r.refs_kept;
  }

  -- A backup of a store, restored into another one, which may encrypt with another key or not at all:
  -- while no database fails a statement, both commands come back, and the second store serves every
  -- prompt of the first with its version hash, every other prompt as before, and keeps its history.
  -- The first store is sound, has each URI once, and its prompts are text.
  pub restore-backup :
      (s t : State)
      → s.io ≡ []
      → t.io ≡ []
      → IsSound env laws s.db
      → NoTwice s.db.prompts
      → ((u : Str) (p : Prompt) → read_prompt env u s.db ≡ ok p → TextPrompt IsText p)
      → ((text : Str) (slots : List Str) → hash env₂ text slots ≡ hash env text slots)
      → (input : Str) × (n : ℕ) × ((backup env sql json s).0 ≡ ok input)
        × ((restore env₂ json input t).0 ≡ restored n)
        × Copied env env₂ s.db t.db (restore env₂ json input t).1.db
  unfolding backup restore
  restore-backup s t quiet quiet₂ sound once text one_hash =
      let l = sql.order_by_uri s.db.prompts in
      let twice = ordered.order_by_uri-NoTwice s.db.prompts once in
      let rows : Readable env IsText l = λ u row e.
        sound-Readable s.db sound text u row
          (sym (ordered.get-order_by_uri s.db.prompts u once) ∙ e) in
      let (ps, dec, all) = decode_all-AllRead env IsText l twice rows in
      let input = encode_all json ps in
      let done =
        restore_from-Ends env env₂ laws₂ json coded one_hash l ps (suc (length input)) 0
          (json.decode input) t all twice
          (omega (arith, length-encode_all env env₂ laws₂ json coded one_hash ps)) refl quiet₂ in
      (
        input,
        length ps,
        ground (arith, dump_quiet env sql s quiet, dec),
        done.exit ∙ ap restored (omega arith),
        Restored-Copied s.db t.db _ sound once done.tables,
      )
