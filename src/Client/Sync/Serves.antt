-- ===== src/Client/Sync/Serves.antt =====
-- `publish` of the client and `PublishPrompt` of the service together.
use promptnet.Prelude.{◌≡◌, ◌≢◌, refl, ◌∙◌, true, false, List, [], ◌∷◌, Str, arith, str_eq, equal}
use promptnet.Prelude.Text.{is_blank, trim_left, space_more}
use promptnet.Client.{PromptFile, derive_slots, path_to_uri, check_file, prompt-derive_slots}
use promptnet.Client.Sync.{published, printed, publish_to_server}
use promptnet.Semdiff.Float.{Float}
use promptnet.Server.Auth.{ok, Reply, Ctx, authorized, may_write}
use promptnet.Server.Handlers.{Wiring, publish_prompt, branch_or}
use promptnet.Server.Publish.Labels.{GivesVectors}
use promptnet.Server.Publish.Sets.{publish_prompt-Sets}
use promptnet.Server.Publish.Succeeds.{publish_prompt_quiet}
use promptnet.Server.Serve.{Node}
use promptnet.Store.Env.{Env, EnvLaws, AllText}
use promptnet.Store.Exec.{ok, Db}
use promptnet.Store.Hash.{hash}
use promptnet.Store.Table.{Prompt, read_prompt}

-- a file that the caller may publish: its template holds more than white space
pub record Sendable (IsText : Str → Type 0) (ctx : Ctx) (f : PromptFile) : Type 0 where
  pub nonblank : is_blank f.content ≡ false
  pub owned : authorized ctx (path_to_uri f.path) ≡ true
  pub text : AllText IsText (derive_slots f.content)

abbrev pub AllSendable : (Str → Type 0) → Ctx → List PromptFile → Type 0
AllSendable IsText ctx [] = Unit
AllSendable IsText ctx (f ∷ files) = Sendable IsText ctx f × AllSendable IsText ctx files

-- none of the files is the prompt `u`
abbrev pub AllOther : Str → List PromptFile → Type 0
AllOther u [] = Unit
AllOther u (f ∷ files) = (path_to_uri f.path ≢ u) × AllOther u files

-- no two files are one prompt
abbrev pub AllApart : List PromptFile → Type 0
AllApart [] = Unit
AllApart (f ∷ files) = AllOther (path_to_uri f.path) files × AllApart files

-- each file is served, and the version hash that was printed is the one of its content
abbrev pub AllServed : Env → List PromptFile → List Str → Db → Type 0
AllServed env [] [] db = Unit
AllServed env [] (h ∷ hs) db = ⊥
AllServed env (f ∷ files) [] db = ⊥
AllServed env (f ∷ files) (h ∷ hs) db =
    ((h ≡ hash env f.content (derive_slots f.content))
      × (p : Prompt) × (read_prompt env (path_to_uri f.path) db ≡ ok p)
      × (p.version_hash ≡ h))
    × AllServed env files hs db

path_to_uri-is_blank : (p : Str) → is_blank (path_to_uri p) ≡ false
unfolding is_blank trim_left space_more path_to_uri
path_to_uri-is_blank p = refl

module _ (env : Env) (fl : Float) (wiring : Wiring fl) where
  -- the call of the client, with neither a branch nor a message
  abbrev pub send : Ctx → Str → Str → List Str → Node → Reply Str × Node
  send ctx uri template slots s = publish_prompt env fl wiring ctx uri template slots [] [] s

  -- While the database answers, and the embedder of the service never returns an empty list of
  -- vectors, a client that may write publishes every file, prints the version
  -- hash of each, and leaves each served under it, and every other prompt as it was. The files hold
  -- more than white space, their placeholders are text, their URIs are in the caller's scope, and no
  -- two of them are one prompt.
  pub publish_to_server-AllServed :
      {IsText : Str → Type 0} (laws : EnvLaws env IsText) (ctx : Ctx) (files : List PromptFile)
      (s : Node)
      → GivesVectors fl wiring
      → may_write ctx ≡ true
      → AllSendable IsText ctx files
      → AllApart files
      → s.store.io ≡ []
      → (hs : List Str) × (after : Node) × (publish_to_server (send ctx) files s
          ≡ published hs after)
        × AllServed env files hs after.store.db
        × ((j : Str)
            → AllOther j files
            → read_prompt env j after.store.db ≡ read_prompt env j s.store.db)
  unfolding publish_to_server equal
  publish_to_server-AllServed laws ctx [] s gives write ready apart quiet =
      ([], s, refl, tt, λ j other. refl)
  publish_to_server-AllServed laws ctx (f ∷ files) s gives write ready apart quiet =
      let uri = path_to_uri f.path in
      let slots = derive_slots f.content in
      let out = send ctx uri f.content slots s in
      let valid =
        prompt-derive_slots uri f.content (path_to_uri-is_blank f.path) ready.0.nonblank in
      let (answer, still) =
        publish_prompt_quiet env fl wiring ctx uri f.content slots [] [] s gives ready.0.owned write
          valid (unfold branch_or in refl) quiet in
      let (_, sets) =
        publish_prompt-Sets env fl wiring laws ctx uri f.content slots [] []
          (hash env f.content slots) s ready.0.text (unfold branch_or in refl) answer in
      let (p, at, version) = sets.current in
      let (hs, after, run, served, others) =
        publish_to_server-AllServed laws ctx files out.1 gives write ready.1 apart.1 still in
      (
        hash env f.content slots ∷ hs,
        after,
        unfold printed check_file in ground (arith, valid, answer, run),
        ((refl, p, others uri apart.0 ∙ at, version), served),
        λ j other. others j other.1 ∙ sets.others j other.0,
      )
