-- ===== src/Command/Prompts/Puts/Writes.antt =====
-- What a stored prompt leaves in the tables.
use promptnet.Prelude.{
  ◌≡◌, ◌≢◌, refl, sym, ap, ◌∙◌, subst, some, List, Str, ◌==◌, str_eq, if◌then◌else◌, arith,
  equal_iff, ◌⊎◌,
}
use promptnet.Prelude.Assoc
use promptnet.Prelude.Assoc.{get-set}
use promptnet.Store.Commits.{get, put}
use promptnet.Store.Content.{decode_prompt-Holds}
use promptnet.Store.Env.{Env, EnvLaws, AllText}
use promptnet.Store.Exec.{PromptRow, driver, ok, err, Db, State}
use promptnet.Store.Hash.{hash}
use promptnet.Store.Keeps.{db-statement, statement_result}
use promptnet.Store.Methods.{Stored, put-Ensures}
use promptnet.Store.Served.Kept.{read_prompt-eq}
use promptnet.Store.Table.{Prompt, put_prompt, read_prompt, read_prompt-get}

abbrev pub prompt_of : Env → Str → Str → List Str → Prompt
prompt_of env uri template slots = record {
  uri = uri;
  template = template;
  slots = slots;
  version_hash = hash env template slots;
}

-- The prompt is served, all other prompts as before, and the history is as it was.
pub record Puts (env : Env) (uri template : Str) (slots : List Str) (before after : Db)
    : Type 0 where
  pub served : read_prompt env uri after ≡ ok (prompt_of env uri template slots)
  pub others : (j : Str) → uri ≢ j → read_prompt env j after ≡ read_prompt env j before
  pub commits_kept : after.commits ≡ before.commits
  pub refs_kept : after.refs ≡ before.refs

pub get_result :
    (env : Env) (uri : Str) (s : State)
    → ((get env uri s).0 ≡ read_prompt env uri s.db) ⊎ ((get env uri s).0 ≡ err driver)
unfolding get
get_result env uri s = ground (arith, db-statement s, statement_result s)

module _ (uri : Str) (row : PromptRow) (d : Db) where
  get-put_prompt :
      (j : Str)
      → Assoc.get j (put_prompt uri row d).prompts
        ≡ (if uri == j then some row else Assoc.get j d.prompts)
  unfolding put_prompt
  get-put_prompt j = get-set uri j row d.prompts

  put_prompt-history :
      ((put_prompt uri row d).commits ≡ d.commits) × ((put_prompt uri row d).refs ≡ d.refs)
  unfolding put_prompt
  put_prompt-history = (refl, refl)

module _ (env : Env) {IsText : Str → Type 0} (laws : EnvLaws env IsText) where
  put_prompt-Puts :
      (uri template : Str) (slots : List Str) (d₀ : Db) (row : PromptRow) (d : Db)
      → AllText IsText slots
      → Stored env d₀ uri template slots (hash env template slots) row
      → Puts env uri template slots d (put_prompt uri row d)
  put_prompt-Puts uri template slots d₀ row d text st = record {
    served =
        read_prompt-get env uri (put_prompt uri row d) row
          (ground (arith, get-put_prompt uri row d uri, equal_iff uri uri))
        ∙ decode_prompt-Holds env laws uri row template slots (record {
          text = text;
          template_column = st.template_column;
          slots_column = st.slots_column;
          version = st.version;
        })
        ∙ ap (λ v. ok (record { uri = uri; template = template; slots = slots; version_hash = v }))
            st.version;
    others = λ j ne.
        read_prompt-eq env j (put_prompt uri row d) d
          (ground (arith, get-put_prompt uri row d j, equal_iff uri j, ne));
    commits_kept = (put_prompt-history uri row d).0;
    refs_kept = (put_prompt-history uri row d).1;
  }

  pub put-Puts :
      (uri template : Str) (slots : List Str) (s : State)
      → AllText IsText slots
      → (put env uri template slots s).0 ≡ ok tt
      → Puts env uri template slots s.db (put env uri template slots s).1.db
  put-Puts uri template slots s text e =
      let (row, st, tables) = (put-Ensures env s.db uri template slots).gives s tt refl e in
      subst (Puts env uri template slots s.db) (sym tables)
        (put_prompt-Puts uri template slots s.db row s.db text st)
