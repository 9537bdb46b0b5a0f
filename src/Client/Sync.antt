-- ===== src/Client/Sync.antt =====
-- cmd/promptctl/main.go: `diff`, `publish`, and what the commands ask of git and of the environment.
pub mod Lists
pub mod Serves
use promptnet.Prelude.{
  ℕ, Bool, ◌||◌, Option, none, some, List, [], ◌∷◌, Str, ◌==◌, nat_eq, str_eq, equal, if◌then◌else◌,
  codes,
}
use promptnet.Prelude.Assoc
use promptnet.Prelude.Keys.{add_keys, sort}
use promptnet.Prelude.Text.{has_prefix, before_byte}
use promptnet.Client.{PromptFile, derive_slots, path_to_uri, check_file}
use promptnet.Semdiff.Analyze
use promptnet.Semdiff.Analyze.{Report, analyze}
use promptnet.Semdiff.Float.{Float}
use promptnet.Server.Auth.{Code, Reply, ok, err}
use promptnet.Server.Handlers.{split_lines}
use promptnet.Validate.{Invalid}

-- strings.HasSuffix
unfoldable pub has_suffix : Str → Str → Bool
has_suffix [] suffix = equal [] suffix
has_suffix (c ∷ s) suffix = equal (c ∷ s) suffix || has_suffix s suffix

unfoldable pub prompt_names : List Str → List Str
unfolding has_suffix
prompt_names [] = []
prompt_names (p ∷ names) =
    let rest = prompt_names names in if has_suffix p (codes ".prompt") then p ∷ rest else rest

-- `diskPromptFiles`, of the regular files that WalkDir comes to outside .git; `promptUnion` below, of
-- the files of the tree
unfoldable pub disk_prompt_files : List Str → List Str
unfolding prompt_names
disk_prompt_files walked = prompt_names walked

unfoldable pub prompt_union : List Str → List Str → List Str
unfolding prompt_names disk_prompt_files add_keys sort
prompt_union tree_names walked =
    sort (add_keys (disk_prompt_files walked) (add_keys (prompt_names tree_names) []))

-- `blobContent` of a tree, and `diskContent` of the working tree: "" for a file that is not there
unfoldable pub content_at : List (Str × Str) → Str → Str
unfolding Assoc.get
content_at files p = elim (Assoc.get p files) [ none ↦ [] | some c ↦ c ]

module _ (fl : Float) (embed : ℕ → Str → Option (List (List fl.Single))) (pf : fl.Double) where
  unfoldable pub reported :
      Str
      → Analyze.Outcome (List (Report fl))
      → Option (List (Str × List (Report fl)))
      → Option (List (Str × List (Report fl)))
  reported p (Analyze.err _) rest = none
  reported p (Analyze.ok res) none = none
  reported p (Analyze.ok res) (some out) = some ((p, res) ∷ out)

  -- the loop of `diffCmd`: what it prints for each path, none for log.Fatal
  -- and for the panic of the analysis
  unfoldable pub diff_paths :
      List (Str × Str) → List (Str × Str) → List Str → Option (List (Str × List (Report fl)))
  unfolding reported content_at
  diff_paths tree disk [] = some []
  diff_paths tree disk (p ∷ paths) =
      let rest = diff_paths tree disk paths in
      if content_at tree p == content_at disk p
      then rest
      else reported p
          (analyze fl embed (split_lines (content_at tree p)) (split_lines (content_at disk p))
            pf).0
          rest

pub data Publication (S : Type 0) : Type 0 where
  published : List Str → S → Publication S
  invalid : Str → Invalid → S → Publication S
  refused : Str → Code → S → Publication S

module _ {S : Type 0} (send : Str → Str → List Str → S → Reply Str × S) where
  -- the version hashes that are printed, the one of `p` in front
  unfoldable pub printed : Str → Publication S → Publication S
  printed h (published hs s) = published (h ∷ hs) s
  printed h (invalid p e s) = invalid p e s
  printed h (refused p c s) = refused p c s

  -- the loop of `publishToServer`; `send` is the call of PublishPrompt
  unfoldable pub publish_to_server : List PromptFile → S → Publication S
  unfolding printed check_file path_to_uri derive_slots
  publish_to_server [] s = published [] s
  publish_to_server (f ∷ files) s =
      let out = send (path_to_uri f.path) f.content (derive_slots f.content) s in
      let rest = publish_to_server files out.1 in
      elim (check_file f) [
        | some e ↦ invalid f.path e s
        | none ↦ elim out.0 [ err c ↦ refused f.path c out.1 | ok h ↦ printed h rest ]
      ]

-- what a push or a pull returns
pub data SyncResult : Type 0 where
  done already_up_to_date sync_failed : SyncResult

-- the line that is printed; none for log.Fatal
unfoldable pub report_sync : Str → SyncResult → Option Str
report_sync verb already_up_to_date = some (codes "already up to date")
report_sync verb sync_failed = none
report_sync verb done = some verb

pub record Signature : Type 0 where
  pub name : Str
  pub email : Str

unfoldable pub or_keep : Str → Str → Str
or_keep [] old = old
or_keep (c ∷ new) old = c ∷ new

-- the loop of `author` over the configurations that could be read
unfoldable pub author_from : List (Option Signature) → Signature → Signature
unfolding or_keep
author_from [] sig = sig
author_from (none ∷ scopes) sig = author_from scopes sig
author_from (some user ∷ scopes) sig =
    author_from scopes
      (record { name = or_keep user.name sig.name; email = or_keep user.email sig.email })

-- the configurations of the system, of the user and of the repository
unfoldable pub author : Option Signature → Option Signature → Option Signature → Signature
unfolding author_from
author system global local =
    author_from (system ∷ global ∷ local ∷ [])
      (record { name = codes "promptctl"; email = codes "promptctl@localhost" })

pub data Auth : Type 0 where
  no_auth ssh_agent : Auth
  basic : Str → Auth

-- `urls` are those of origin, empty if there is none; `agent` is whether the agent can be reached
unfoldable pub auth_for : List Str → Str → Bool → Auth
unfolding has_prefix
auth_for [] token agent = no_auth
auth_for (url ∷ urls) token agent =
    if has_prefix url (codes "http")
    then (if token == [] then no_auth else basic token)
    else if agent
    then ssh_agent
    else no_auth

unfoldable pub first_line : Str → Str
unfolding before_byte
first_line s = before_byte b'\n' s
