-- ===== src/Client/Examples.antt =====
-- The theorems about the client at concrete files.
use promptnet.Client.{PromptFile, derive_slots, path_to_uri}
use promptnet.Client.Sync.Serves.{
  AllSendable, AllApart, AllServed, AllOther, send, publish_to_server-AllServed,
}
use promptnet.Server.Auth.{authorized, may_write}
use promptnet.Server.Examples.{admin, started}
use promptnet.Server.Serve.{Node}
use promptnet.Server.Handlers.{Wiring}
use promptnet.Server.Publish.Labels.{GivesVectors}
use promptnet.Store.Examples.{toy, toy_laws}
use promptnet.Store.Hash.Injective.{NoNul}
use promptnet.Store.Table.{read_prompt}
use promptnet.Client.Sync.{
  published, publish_to_server, has_suffix, content_at, prompt_union, diff_paths,
}
use promptnet.Client.Sync.Lists.{paths_of, diff_paths-prompt_union}
use promptnet.Prelude.{
  ℕ, ap, ◌≡◌, refl, true, false, not, ◌&&◌, ◌||◌, Option, none, some, List, [], ◌∷◌, Str, codes,
  equal, equal_iff, arith,
}
use promptnet.Prelude.Assoc
use promptnet.Prelude.Keys.{contains, add_key}
use promptnet.Semdiff.Analyze.{Report, analyze}
use promptnet.Semdiff.Examples.{hundredths, lengths}
use promptnet.Prelude.Text.{is_blank, join}
use promptnet.Server.Handlers.{split_lines}

abbrev path : Str
path = codes "acme/a.prompt"

abbrev content : Str
content = codes "Hi {x}, {y} and {x}"

abbrev tree : List (Str × Str)
tree = (path, content) ∷ []

abbrev disk : List (Str × Str)
disk = (path, codes "Hi {x}") ∷ (codes "notes.txt", codes "later") ∷ []

abbrev shown :
    Option (List (Str × List (Report hundredths))) → List (Str × List (Report hundredths))
shown none = []
shown (some out) = out

abbrev names : List Str
names = prompt_union (path ∷ []) (path ∷ codes "notes.txt" ∷ [])

test_diff :
    diff_paths hundredths lengths 60 tree disk names
    ≡ some (shown (diff_paths hundredths lengths 60 tree disk names))
unfolding diff_paths prompt_union equal add_key contains analyze split_lines join Assoc.set
test_diff = refl

diff_paths-prompt_union_example :
    contains
      (paths_of hundredths lengths 60 tree disk
        (shown (diff_paths hundredths lengths 60 tree disk names)))
      path
    ≡ (((contains (path ∷ []) path || contains (path ∷ codes "notes.txt" ∷ []) path)
          && has_suffix path (codes ".prompt"))
        && not (equal (content_at tree path) (content_at disk path)))
diff_paths-prompt_union_example =
    diff_paths-prompt_union hundredths lengths 60 tree disk (path ∷ [])
      (path ∷ codes "notes.txt" ∷ []) (shown (diff_paths hundredths lengths 60 tree disk names))
      path test_diff

abbrev wiring : Wiring hundredths
wiring = record { embedder = some lengths; pf = 60; notifier = true }

abbrev files : List PromptFile
files =
    record { path = path; content = content }
    ∷ record { path = codes "acme/b.prompt"; content = codes "Bye {x}" }
    ∷ []

files_ready : AllSendable NoNul admin files
unfolding is_blank authorized derive_slots equal add_key contains
files_ready = (
  record { nonblank = refl; owned = refl; text = (((λ e. cc), tt), (((λ e. cc), tt), tt)) },
  (record { nonblank = refl; owned = refl; text = (((λ e. cc), tt), tt) }, tt),
)

test_apart : equal (path_to_uri (codes "acme/b.prompt")) (path_to_uri path) ≡ false
unfolding path_to_uri equal
test_apart = refl

files_apart : AllApart files
files_apart = (
  (
    (λ e.
        ground (
          arith,
          equal_iff (path_to_uri (codes "acme/b.prompt")) (path_to_uri path),
          test_apart,
          e,
        )),
    tt,
  ),
  (tt, tt),
)

abbrev asked : Option (ℕ → Str → Option (List (List ℕ))) → ℕ → Str → Option (List (List ℕ))
asked none n t = none
asked (some embed) n t = embed n t

wiring-GivesVectors : GivesVectors hundredths wiring
wiring-GivesVectors embed on n t e = ground (arith, ap (λ o. asked o n t) on, e)

publish_to_server-AllServed_example :
    (hs : List Str) × (after : Node) × (publish_to_server
        (send toy hundredths wiring admin)
        files
        started
      ≡ published hs after)
    × AllServed toy files hs after.store.db
    × ((j : Str)
        → AllOther j files
        → read_prompt toy j after.store.db ≡ read_prompt toy j started.store.db)
publish_to_server-AllServed_example =
    publish_to_server-AllServed toy hundredths wiring toy_laws admin files started
      wiring-GivesVectors (unfold may_write in refl) files_ready files_apart refl
