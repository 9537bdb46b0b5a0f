-- ===== src/Client.antt =====
-- cmd/promptctl/main.go: the prompts of a working tree, from their files.
pub mod Examples
pub mod Files
pub mod Sync
use promptnet.Prelude.{
  ℕ, ◌+◌, ◌≡◌, ◌≢◌, str_eq, ◌∙◌, sym, true, false, Option, none, some, List, [], ◌∷◌, ◌++◌, Str,
  ◌==◌, nat_eq, if◌then◌else◌, arith, equal, equal_refl, refl, codes,
}
use promptnet.Prelude.Keys.{contains, add_keys}
use promptnet.Prelude.Text.{is_blank, trim_left, space_more}
use promptnet.Validate.{
  Invalid, contains-add_keys-nil, AllNamed, AllWord, is_word, placeholders, placeholders-iff-Occurs,
  prompt, prompt-iff-Accepted,
}

-- `deriveSlots`: each placeholder once, in the order of the template
unfoldable pub derive_slots : Str → List Str
unfolding add_keys placeholders
derive_slots template = add_keys (placeholders template) []

-- strings.TrimSuffix(s, suffix) for a suffix that is not empty
unfoldable pub trim_suffix : Str → Str → Str
trim_suffix [] suffix = []
trim_suffix (c ∷ s) suffix =
    let rest = trim_suffix s suffix in if equal (c ∷ s) suffix then [] else c ∷ rest

-- `pathToURI`, of a path with slashes
unfoldable pub path_to_uri : Str → Str
unfolding trim_suffix
path_to_uri p = codes "promptnet://" ++ trim_suffix p (codes ".prompt")

pub record PromptFile : Type 0 where
  pub path : Str
  pub content : Str

-- the check of one file, with the slots that are derived from it
unfoldable pub check_file : PromptFile → Option Invalid
unfolding derive_slots path_to_uri
check_file f = prompt (path_to_uri f.path) f.content (derive_slots f.content)

-- the loop of `validateAll`: `bad`
unfoldable pub validate_all : List PromptFile → ℕ
unfolding check_file
validate_all [] = 0
validate_all (f ∷ files) =
    let bad = validate_all files in elim (check_file f) [ none ↦ bad | some _ ↦ bad + 1 ]

pub data Promotion : Type 0 where
  absent up_to_date refused committed : Promotion

unfoldable pub promote_valid : Option Invalid → Promotion
promote_valid none = committed
promote_valid (some _) = refused

-- the tests of `promote` before it writes; "" is the content of a file that is not there
unfoldable pub promote : Str → Str → Str → Promotion
unfolding check_file promote_valid
promote path content target =
    if content == []
    then absent
    else if content == target
    then up_to_date
    else promote_valid (check_file (record { path = path; content = content }))

word-space_more : (c : ℕ) (s : Str) → is_word c ≡ true → space_more (c ∷ s) ≡ none
unfolding space_more is_word
word-space_more c [] h = ground arith
word-space_more c (d ∷ []) h = ground arith
word-space_more c (d ∷ e ∷ s) h = ground arith

word-is_blank : (w : Str) → AllWord w → w ≢ [] → is_blank w ≡ false
unfolding is_blank trim_left
word-is_blank [] h ne = absurd (ne refl)
word-is_blank (c ∷ s) h ne = ground (arith, word-space_more c s h.0)

AllNamed-contains :
    (names : List Str) → ((n : Str) → contains names n ≡ true → is_blank n ≡ false) → AllNamed names
unfolding contains
AllNamed-contains [] h = tt
AllNamed-contains (x ∷ xs) h =
    (h x (ground (arith, equal_refl x)), AllNamed-contains xs (λ n k. h n (ground (arith, k))))

-- Every file that `publish` sends has slots that fit: a prompt with the slots that are derived from
-- its template is valid if its URI and its template hold more than white space.
pub prompt-derive_slots :
    (uri template : Str)
    → is_blank uri ≡ false
    → is_blank template ≡ false
    → prompt uri template (derive_slots template) ≡ none
unfolding derive_slots
prompt-derive_slots uri template u t =
    let same : (n : Str) → contains (placeholders template) n ≡ contains (derive_slots template) n =
      λ n. sym (contains-add_keys-nil (placeholders template) n) in
    (prompt-iff-Accepted uri template (derive_slots template)).1 (record {
      uri_named = u;
      template_written = t;
      slots_named = AllNamed-contains (derive_slots template) λ n k.
          let o = (placeholders-iff-Occurs template n).0 (same n ∙ k) in
          word-is_blank n o.word o.nonempty;
      same_names = same;
    })
