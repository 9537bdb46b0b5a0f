-- ===== src/Client/Sync/Lists.antt =====
-- Which prompts `diff` reports, and which files `publish` has sent when it stops.
use promptnet.Prelude.{
  ℕ, ◌≡◌, refl, sym, ap, ◌∙◌, true, not, ◌&&◌, ◌||◌, Option, none, some, List, [], ◌∷◌, ◌++◌, Str,
  str_eq, equal, equal_iff, codes, arith, Bool-cases, Option-cases, inl, inr, ◌⊎◌, map,
}
use promptnet.Prelude.Keys.{contains, contains-add_keys, contains-sort, add_keys}
use promptnet.Client.{PromptFile, derive_slots, path_to_uri, check_file}
use promptnet.Client.Sync.{
  has_suffix, prompt_names, disk_prompt_files, prompt_union, content_at, reported, diff_paths,
  Publication, published, invalid, refused, printed, publish_to_server,
}
use promptnet.Semdiff.Analyze
use promptnet.Semdiff.Analyze.{Report, analyze}
use promptnet.Semdiff.Float.{Float}
use promptnet.Server.Auth.{Code, Reply, ok, err}
use promptnet.Server.Handlers.{split_lines}

contains-prompt_names :
    (names : List Str) (p : Str)
    → contains (prompt_names names) p ≡ (contains names p && has_suffix p (codes ".prompt"))
unfolding prompt_names contains
contains-prompt_names [] p = refl
contains-prompt_names (x ∷ names) p = elim (Bool-cases (equal x p)) [
  | inl same ↦
      let at = ap (λ y. has_suffix y (codes ".prompt")) ((equal_iff x p).0 same) in
      ground (arith, same, at, contains-prompt_names names p)
  | inr other ↦ ground (arith, other, contains-prompt_names names p)
]

-- the paths of the union are those of prompt files in the tree or on disk
contains-prompt_union :
    (tree_names walked : List Str) (p : Str)
    → contains (prompt_union tree_names walked) p
      ≡ ((contains tree_names p || contains walked p) && has_suffix p (codes ".prompt"))
unfolding prompt_union disk_prompt_files contains
contains-prompt_union tree_names walked p =
    contains-sort (add_keys (prompt_names walked) (add_keys (prompt_names tree_names) [])) p
    ∙ contains-add_keys (prompt_names walked) (add_keys (prompt_names tree_names) []) p
    ∙ ground (
      arith,
      contains-add_keys (prompt_names tree_names) [] p,
      contains-prompt_names tree_names p,
      contains-prompt_names walked p,
    )

module _ (fl : Float) (embed : ℕ → Str → Option (List (List fl.Single))) (pf : fl.Double)
    (tree disk : List (Str × Str)) where
  abbrev pub paths_of : List (Str × List (Report fl)) → List Str
  paths_of out = map (λ e. e.0) out

  reported-inv :
      (p : Str) (o : Analyze.Outcome (List (Report fl)))
      (rest : Option (List (Str × List (Report fl)))) (out : List (Str × List (Report fl)))
      → reported fl embed pf p o rest ≡ some out
      → (tail : List (Str × List (Report fl))) × (rest ≡ some tail)
        × (paths_of out ≡ p ∷ paths_of tail)
  unfolding reported
  reported-inv p (Analyze.err e) rest out h = absurd cc
  reported-inv p (Analyze.ok res) none out h = absurd cc
  reported-inv p (Analyze.ok res) (some tail) out h =
      let is : (p, res) ∷ tail ≡ out = ground (arith, h) in (tail, refl, ap paths_of (sym is))

  contains-diff_paths :
      (paths : List Str) (out : List (Str × List (Report fl))) (p : Str)
      → diff_paths fl embed pf tree disk paths ≡ some out
      → contains (paths_of out) p
        ≡ (contains paths p && not (equal (content_at tree p) (content_at disk p)))
  unfolding diff_paths contains
  contains-diff_paths [] out p e =
      let is : [] ≡ out = ground (arith, e) in ap (λ l. contains (paths_of l) p) (sym is)
  contains-diff_paths (x ∷ paths) out p e =
      let old = content_at tree x in
      let new = content_at disk x in
      let here : equal x p ≡ true → equal old new ≡ equal (content_at tree p) (content_at disk p) =
        λ same. ap (λ y. equal (content_at tree y) (content_at disk y)) ((equal_iff x p).0 same) in
      elim (Bool-cases (equal old new)) [
        | inl kept ↦
            ground (arith, kept, here, contains-diff_paths paths out p (ground (arith, kept, e)))
        | inr changed ↦
            let o = (analyze fl embed (split_lines old) (split_lines new) pf).0 in
            let (tail, rest, names) =
              reported-inv x o (diff_paths fl embed pf tree disk paths) out
                (ground (arith, changed, e)) in
            ap (λ l. contains l p) names
            ∙ ground (arith, changed, here, contains-diff_paths paths tail p rest)
      ]

-- Where `diff` comes back, it reports exactly the prompt files, in the tree of the ref or on disk,
-- whose content there and here differs; a file that is not there counts as empty.
pub diff_paths-prompt_union :
    (fl : Float) (embed : ℕ → Str → Option (List (List fl.Single))) (pf : fl.Double)
    (tree disk : List (Str × Str)) (tree_names walked : List Str)
    (out : List (Str × List (Report fl))) (p : Str)
    → diff_paths fl embed pf tree disk (prompt_union tree_names walked) ≡ some out
    → contains (paths_of fl embed pf tree disk out) p ≡ (
        ((contains tree_names p || contains walked p) && has_suffix p (codes ".prompt"))
        && not (equal (content_at tree p) (content_at disk p)))
diff_paths-prompt_union fl embed pf tree disk tree_names walked out p e =
    contains-diff_paths fl embed pf tree disk (prompt_union tree_names walked) out p e
    ∙ ap (λ b. b && not (equal (content_at tree p) (content_at disk p)))
        (contains-prompt_union tree_names walked p)

module _ {S : Type 0} (send : Str → Str → List Str → S → Reply Str × S) where
  -- where `publish` was refused: the files before were all published, and those behind not sent
  pub record Stops (files : List PromptFile) (path : Str) (c : Code) (s after : S) : Type 0 where
    pub before : List PromptFile
    pub file : PromptFile
    pub behind : List PromptFile
    pub hashes : List Str
    pub reached : S
    pub split : files ≡ before ++ file ∷ behind
    pub sent : publish_to_server send before s ≡ published hashes reached
    pub at_path : file.path ≡ path
    pub refusal :
        send (path_to_uri file.path) file.content (derive_slots file.content) reached
        ≡ (err c, after)

  printed-refused :
      (h : Str) (r : Publication S) (path : Str) (c : Code) (after : S)
      → printed send h r ≡ refused path c after
      → r ≡ refused path c after
  unfolding printed
  printed-refused h (published hs s) path c after e = ground (arith, e)
  printed-refused h (invalid p x s) path c after e = ground (arith, e)
  printed-refused h (refused p d s) path c after e = e

  abbrev call : PromptFile → S → Reply Str × S
  call f s = send (path_to_uri f.path) f.content (derive_slots f.content) s

  Stops-first :
      (f : PromptFile) (files : List PromptFile) (path : Str) (c d : Code) (s after : S)
      → check_file f ≡ none
      → (call f s).0 ≡ err d
      → publish_to_server send (f ∷ files) s ≡ refused path c after
      → Stops (f ∷ files) path c s after
  unfolding publish_to_server
  Stops-first f files path c d s after valid said e =
      let is : refused f.path d (call f s).1 ≡ refused path c after =
        ground (arith, valid, said, e) in
      record {
        before = [];
        file = f;
        behind = files;
        hashes = [];
        reached = s;
        split = refl;
        sent = refl;
        at_path = ground (arith, is);
        refusal = ground (arith, is, said);
      }

  Stops-later :
      (f : PromptFile) (files : List PromptFile) (path : Str) (c : Code) (h : Str) (s after : S)
      → check_file f ≡ none
      → (call f s).0 ≡ ok h
      → Stops files path c (call f s).1 after
      → Stops (f ∷ files) path c s after
  unfolding publish_to_server printed
  Stops-later f files path c h s after valid said r = record {
    before = f ∷ r.before;
    file = r.file;
    behind = r.behind;
    hashes = h ∷ r.hashes;
    reached = r.reached;
    split = ap (◌∷◌ f) r.split;
    sent = ground (arith, valid, said, r.sent);
    at_path = r.at_path;
    refusal = r.refusal;
  }

  Reply-cases : (r : Reply Str) → ((h : Str) × (r ≡ ok h)) ⊎ ((d : Code) × (r ≡ err d))
  Reply-cases (ok h) = inl (h, refl)
  Reply-cases (err d) = inr (d, refl)

  -- where a call was refused, every file in front is published and none behind is sent
  pub publish_to_server-Stops :
      (files : List PromptFile) (path : Str) (c : Code) (s after : S)
      → publish_to_server send files s ≡ refused path c after
      → Stops files path c s after
  unfolding publish_to_server
  publish_to_server-Stops [] path c s after e = absurd (ground (arith, e))
  publish_to_server-Stops (f ∷ files) path c s after e = elim (Option-cases (check_file f)) [
    | inr (x, bad) ↦ absurd (ground (arith, bad, e))
    | inl valid ↦ elim (Reply-cases (call f s).0) [
      | inr (d, said) ↦ Stops-first f files path c d s after valid said e
      | inl (h, said) ↦
          let rest = publish_to_server send files (call f s).1 in
          Stops-later f files path c h s after valid said (
            publish_to_server-Stops files path c (call f s).1 after
              (printed-refused h rest path c after (ground (arith, valid, said, e))))
    ]
  ]
