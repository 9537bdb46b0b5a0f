-- ===== src/Semdiff/Embedders.antt =====
-- The embedders: `LexicalEmbedder`, `HTTPEmbedder`, and the choice between them in semdiff.go and in
-- cmd/promptnet/main.go.
use promptnet.Prelude.{
  ℕ, zero, suc, ◌+◌, ◌*◌, ◌/◌, ◌%◌, ◌^◌, ◌≡◌, refl, ap, ◌∙◌, not, Option, none, some, List, [], ◌∷◌,
  ◌++◌, Str, ◌==◌, nat_eq, str_eq, if◌then◌else◌, codes, length,
}
use promptnet.Semdiff.Float.{Float}

-- the bitwise exclusive or of numbers below 2 ^ bits
unfoldable pub xor : ℕ → ℕ → ℕ → ℕ
xor zero a b = 0
xor (suc bits) a b = (a + b) % 2 + 2 * xor bits (a / 2) (b / 2)

-- hash/fnv, New32a
unfoldable pub fnv_from : ℕ → Str → ℕ
unfolding xor
fnv_from h [] = h
fnv_from h (c ∷ s) = fnv_from (xor 32 h c * 16777619 % 2 ^ 32) s

unfoldable pub fnv32a : Str → ℕ
unfolding fnv_from
fnv32a = fnv_from 2166136261

-- float32 counters, and the words of a text: strings.FieldsFunc of the text in lower case
pub record Counting (fl : Float) : Type 0 where
  pub none_yet : fl.Single
  pub one_more : fl.Single → fl.Single
  pub words : Str → List Str

module _ (fl : Float) (counting : Counting fl) where
  unfoldable pub zero_counts : ℕ → List fl.Single
  zero_counts zero = []
  zero_counts (suc d) = counting.none_yet ∷ zero_counts d

  -- v[i]++
  unfoldable pub count_at : ℕ → List fl.Single → List fl.Single
  count_at i [] = []
  count_at zero (x ∷ v) = counting.one_more x ∷ v
  count_at (suc i) (x ∷ v) = x ∷ count_at i v

  unfoldable pub count_words : ℕ → List Str → List fl.Single → List fl.Single
  unfolding count_at fnv32a
  count_words d [] v = v
  count_words d (w ∷ ws) v = count_words d ws (count_at (fnv32a w % d) v)

  unfoldable pub dim_or : ℕ → ℕ
  dim_or d = if d == 0 then 256 else d

  -- `LexicalEmbedder.Embed`, which has no error
  unfoldable pub lexical_embed : ℕ → List Str → List (List fl.Single)
  unfolding count_words zero_counts dim_or
  lexical_embed dim [] = []
  lexical_embed dim (t ∷ texts) =
      count_words (dim_or dim) (counting.words t) (zero_counts (dim_or dim))
      ∷ lexical_embed dim texts

  length-zero_counts : (d : ℕ) → length (zero_counts d) ≡ d
  unfolding zero_counts
  length-zero_counts zero = refl
  length-zero_counts (suc d) = ap suc (length-zero_counts d)

  length-count_at : (i : ℕ) (v : List fl.Single) → length (count_at i v) ≡ length v
  unfolding count_at
  length-count_at i [] = refl
  length-count_at zero (x ∷ v) = refl
  length-count_at (suc i) (x ∷ v) = ap suc (length-count_at i v)

  -- the vector of a text has the dimension of the embedder
  pub length-count_words :
      (d : ℕ) (ws : List Str) (v : List fl.Single) → length (count_words d ws v) ≡ length v
  unfolding count_words
  length-count_words d [] v = refl
  length-count_words d (w ∷ ws) v =
      length-count_words d ws (count_at (fnv32a w % d) v) ∙ length-count_at (fnv32a w % d) v

pub data EmbedderChoice : Type 0 where
  lexical : EmbedderChoice
  http : Str → Str → Str → EmbedderChoice

-- `buildEmbedder`, and `EmbedderFromEnv` on the environment's values
unfoldable pub build_embedder : Str → Str → Str → EmbedderChoice
build_embedder [] model key = lexical
build_embedder (c ∷ url) model key = http (c ∷ url) model key

unfoldable pub embed_name : Str → Str → Str
embed_name url model = if url == [] then codes "lexical(offline)" else model ++ (codes "@" ++ url)

-- `persistFracFor`: 0.40 and 0.60
unfoldable pub persist_frac_for : {D : Type 0} → D → D → EmbedderChoice → D
persist_frac_for low default lexical = low
persist_frac_for low default (http _ _ _) = default

-- net/http and encoding/json: `post` takes the URL, the authorization value and the body, and gives
-- the status and the body of the response, or an error
pub record Http (fl : Float) : Type 0 where
  pub marshal : Str → List Str → Str
  pub post : Str → Option Str → Str → Option (ℕ × Str)
  pub decode : Str → Option (List (List fl.Single))

module _ (fl : Float) (net : Http fl) where
  unfoldable pub authorization : Str → Option Str
  authorization [] = none
  authorization (c ∷ key) = some (codes "Bearer " ++ (c ∷ key))

  unfoldable pub vectors_of : Option (ℕ × Str) → Option (List (List fl.Single))
  vectors_of none = none
  vectors_of (some (status, body)) = if not (status == 200) then none else net.decode body

  -- `HTTPEmbedder.Embed`
  unfoldable pub http_embed : Str → Str → Str → List Str → Option (List (List fl.Single))
  unfolding authorization vectors_of
  http_embed url model key texts =
      vectors_of (net.post url (authorization key) (net.marshal model texts))

  -- what `embedOne` asks: the embedder that was chosen, for one text
  unfoldable pub embed_with : Counting fl → EmbedderChoice → Str → Option (List (List fl.Single))
  unfolding http_embed lexical_embed
  embed_with counting lexical t = some (lexical_embed fl counting 0 (t ∷ []))
  embed_with counting (http url model key) t = http_embed url model key (t ∷ [])
