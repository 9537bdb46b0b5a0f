-- ===== src/Store/Content.antt =====
-- The content of the rows: every column decrypts and decodes to what was stored, and every version
-- hash is that of the content beside it.
use promptnet.Prelude.{
  ◌≡◌, refl, subst, some, List, Str, str_eq, equal, arith, Bool-cases, ◌⊎◌, inl, inr,
}
use promptnet.Prelude.Assoc
use promptnet.Prelude.Assoc.{get-set}
use promptnet.Store.Crypt.RoundTrip.{unseal-seal}
use promptnet.Store.Effects.{Sealed, prompt_of}
use promptnet.Store.Env.{Env, EnvLaws, AllText}
use promptnet.Store.Exec.{ok, PromptRow, CommitRow, Db}
use promptnet.Store.Hash.{hash}
use promptnet.Store.Table.{
  Commit, find, known, insert_commit, set_ref, put_prompt, null_string, decode_prompt,
  decode_commit,
}

module _ (env : Env) {IsText : Str → Type 0} (laws : EnvLaws env IsText) where
  -- the columns of a row hold this content, and its hash
  pub record Holds (row : PromptRow) (template : Str) (slots : List Str) : Type 0 where
    pub text : AllText IsText slots
    pub template_column : Sealed env template row.template
    pub slots_column : Sealed env (env.marshal slots) row.slots
    pub version : row.version_hash ≡ hash env template slots

  abbrev pub HasContent : PromptRow → Type 0
  HasContent row = (template : Str) × (slots : List Str) × Holds row template slots

  pub decode_prompt-Holds :
      (uri : Str) (row : PromptRow) (template : Str) (slots : List Str)
      → Holds row template slots
      → decode_prompt env uri row
        ≡ ok (record {
          uri = uri;
          template = template;
          slots = slots;
          version_hash = row.version_hash;
        })
  unfolding decode_prompt
  decode_prompt-Holds uri row template slots h = ground (
    arith,
    unseal-seal env laws template row.template h.template_column.0 h.template_column.1,
    unseal-seal env laws (env.marshal slots) row.slots h.slots_column.0 h.slots_column.1,
    laws.unmarshal-marshal slots h.text,
  )

  pub decode_commit-Holds :
      (row : CommitRow) (template : Str) (slots : List Str)
      → Holds (prompt_of row) template slots
      → (c : Commit) × (decode_commit env row ≡ ok c)
        × (c.template ≡ template)
        × (c.slots ≡ slots)
        × (c.version_hash ≡ row.version_hash)
        × (c.hash ≡ row.hash)
        × (c.uri ≡ row.uri)
  unfolding decode_commit
  decode_commit-Holds row template slots h = (
    record {
      hash = row.hash;
      uri = row.uri;
      template = template;
      slots = slots;
      version_hash = row.version_hash;
      parent = null_string row.parent;
      parent2 = null_string row.parent2;
      author = row.author;
      message = row.message;
      created_at = row.created_at;
    },
    ground (
      arith,
      unseal-seal env laws template row.template h.template_column.0 h.template_column.1,
      unseal-seal env laws (env.marshal slots) row.slots h.slots_column.0 h.slots_column.1,
      laws.unmarshal-marshal slots h.text,
    ),
    refl,
    refl,
    refl,
    refl,
    refl,
  )

  pub record IsSound (db : Db) : Type 0 where
    pub commits :
        (h : Str) (row : CommitRow) → find h db.commits ≡ some row → HasContent (prompt_of row)
    pub prompts :
        (uri : Str) (row : PromptRow) → Assoc.get uri db.prompts ≡ some row → HasContent row

  find-insert_commit :
      (h : Str) (new row : CommitRow) (db : Db)
      → find h (insert_commit new db).commits ≡ some row
      → (find h db.commits ≡ some row) ⊎ (new ≡ row)
  unfolding insert_commit find
  find-insert_commit h new row db e = elim (Bool-cases (known new.hash db.commits)) [
    | inl old ↦ inl (rw old at e)
    | inr is_new ↦ elim (Bool-cases (equal new.hash h)) [
      | inl here ↦ inr (ground arith)
      | inr there ↦ inl (ground arith)
    ]
  ]

  pub insert_commit-IsSound :
      (new : CommitRow) (db : Db)
      → HasContent (prompt_of new)
      → IsSound db
      → IsSound (insert_commit new db)
  insert_commit-IsSound new db c s = record {
    commits = λ h row e. elim (find-insert_commit h new row db e) [
      | inl old ↦ s.commits h row old
      | inr is ↦ subst (λ r. HasContent (prompt_of r)) is c
    ];
    prompts = λ uri row e. s.prompts uri row (unfold insert_commit in ground arith);
  }

  pub set_ref-IsSound :
      (uri branch h : Str) (db : Db) → IsSound db → IsSound (set_ref uri branch h db)
  unfolding set_ref
  set_ref-IsSound uri branch h db s = record { commits = s.commits; prompts = s.prompts }

  pub put_prompt-IsSound :
      (uri : Str) (row : PromptRow) (db : Db)
      → HasContent row
      → IsSound db
      → IsSound (put_prompt uri row db)
  unfolding put_prompt
  put_prompt-IsSound uri row db c s = record {
    commits = s.commits;
    prompts = λ u r e. elim (Bool-cases (equal uri u)) [
      | inl same ↦
          let is : row ≡ r = ground (arith, get-set uri u row db.prompts) in subst HasContent is c
      | inr other ↦ s.prompts u r (ground (arith, get-set uri u row db.prompts))
    ];
  }
