-- ===== src/Command/Prompts/Restores/Rows.antt =====
-- The rows of a sound store as prompts, and the codecs of a backup.
use promptnet.Prelude.{
  ◌≤◌, ◌≡◌, refl, ap, some, List, [], ◌∷◌, ◌++◌, Str, str_eq, arith, equal_iff, length,
}
use promptnet.Prelude.Assoc
use promptnet.Prelude.Assoc.{NoTwice}
use promptnet.Command.Prompts.{eof, value, Json}
use promptnet.Store.Commits.{put}
use promptnet.Store.Crypt.{seal}
use promptnet.Store.Env.{Env, AllText}
use promptnet.Store.Exec.{ok, PromptRow, State, statement, next_io}
use promptnet.Store.Hash.{hash}
use promptnet.Store.Listing.{Sql, decode_all}
use promptnet.Store.Table.{Prompt, decode_prompt}

-- what JSON carries unchanged
pub record TextPrompt (IsText : Str → Type 0) (p : Prompt) : Type 0 where
  pub uri : IsText p.uri
  pub template : IsText p.template
  pub slots : AllText IsText p.slots
  pub version_hash : IsText p.version_hash

-- A decoder gives back what the encoder has written, and goes on behind it: it may leave white
-- space, which the next call skips.
pub record JsonLaws (json : Json) (IsText : Str → Type 0) : Type 0 where
  pub decode-encode :
      (p : Prompt) (rest : Str)
      → TextPrompt IsText p
      → (left : Str) × (json.decode (json.encode p ++ rest) ≡ value p left)
        × (json.decode left ≡ json.decode rest)
  pub decode-nil : json.decode [] ≡ eof
  pub encode-positive : (p : Prompt) → 1 ≤ length (json.encode p)

-- ORDER BY on a primary key
pub record OrderLaws (sql : Sql) : Type 0 where
  pub get-order_by_uri :
      (l : List (Str × PromptRow)) (u : Str)
      → NoTwice l
      → Assoc.get u (sql.order_by_uri l) ≡ Assoc.get u l
  pub order_by_uri-NoTwice : (l : List (Str × PromptRow)) → NoTwice l → NoTwice (sql.order_by_uri l)

pub put_quiet :
    (env : Env) (uri template : Str) (slots : List Str) (s : State)
    → s.io ≡ []
    → ((put env uri template slots s).0 ≡ ok tt) × ((put env uri template slots s).1.io ≡ [])
unfolding put statement next_io seal
put_quiet env uri template slots s e = ground arith

-- a row that is read as this prompt, which carries its own hash
pub record Reads (env : Env) (IsText : Str → Type 0) (u : Str) (row : PromptRow) (p : Prompt)
    : Type 0 where
  pub decoded : decode_prompt env u row ≡ ok p
  pub text : TextPrompt IsText p
  pub at_uri : p.uri ≡ u
  pub hashed : p.version_hash ≡ hash env p.template p.slots

module _ (env : Env) (IsText : Str → Type 0) where
  abbrev pub AllRead : List (Str × PromptRow) → List Prompt → Type 0
  AllRead [] [] = Unit
  AllRead [] (p ∷ ps) = ⊥
  AllRead (e ∷ l) [] = ⊥
  AllRead ((u, row) ∷ l) (p ∷ ps) = Reads env IsText u row p × AllRead l ps

  abbrev pub Readable : List (Str × PromptRow) → Type 0
  Readable l =
      (u : Str) (row : PromptRow)
      → Assoc.get u l ≡ some row
      → (p : Prompt) × Reads env IsText u row p

  Readable-tail :
      (u : Str) (row : PromptRow) (l : List (Str × PromptRow))
      → NoTwice ((u, row) ∷ l)
      → Readable ((u, row) ∷ l)
      → Readable l
  unfolding Assoc.get
  Readable-tail u row l once h v other e =
      h v other (ground (arith, e, once.0, equal_iff u v, ap (λ x. Assoc.get x l) {x = u} {y = v}))

  pub decode_all-AllRead :
      (l : List (Str × PromptRow))
      → NoTwice l
      → Readable l
      → (ps : List Prompt) × (decode_all env l ≡ ok ps) × AllRead l ps
  unfolding decode_all Assoc.get
  decode_all-AllRead [] once h = ([], refl, tt)
  decode_all-AllRead ((u, row) ∷ l) once h =
      let (p, r) = h u row (ground (arith, equal_iff u u)) in
      let (ps, e, all) = decode_all-AllRead l once.1 (Readable-tail u row l once h) in
      (p ∷ ps, ground (arith, r.decoded, e), (r, all))
