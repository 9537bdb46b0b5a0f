-- ===== src/Store/Hash/Valid.antt =====
-- The version hash of a valid prompt.
use promptnet.Prelude.{◌≡◌, ◌≢◌, refl, ◌∙◌, true, List, [], ◌∷◌, Str, arith, equal_refl}
use promptnet.Prelude.Keys.{contains}
use promptnet.Store.Env.{Env}
use promptnet.Store.Hash.Injective.{NoNul, AllSlots, hash_injective}
use promptnet.Store.Hash.{content_preimage, hash}
use promptnet.Validate.{
  is_word, AllWord, placeholders, placeholders-iff-Occurs, Accepted, prompt-iff-Accepted, prompt,
}
use promptnet.Prelude.{none}

AllWord-NoNul : (s : Str) → AllWord s → NoNul s
unfolding is_word
AllWord-NoNul [] h = tt
AllWord-NoNul (c ∷ s) h = ground (arith, AllWord-NoNul s h.1)

slots_words :
    (slots all : List Str)
    → ((n : Str) → contains slots n ≡ true → contains all n ≡ true)
    → ((n : Str) → contains all n ≡ true → (n ≢ []) × NoNul n)
    → AllSlots slots
unfolding contains
slots_words [] all sub words = tt
slots_words (s ∷ slots) all sub words =
    let here = words s (sub s (rw equal_refl refl)) in
    (here.0, here.1, slots_words slots all (λ n h. sub n (ground arith)) words)

Accepted-AllSlots : (uri t : Str) (slots : List Str) → Accepted uri t slots → AllSlots slots
Accepted-AllSlots uri t slots ok =
    slots_words slots (placeholders t) (λ n h. ok.same_names n ∙ h)
      λ n h. let o = (placeholders-iff-Occurs t n).0 h in (o.nonempty, AllWord-NoNul n o.word)

-- For valid prompts whose templates hold no NUL, one version hash means one content, unless the
-- digest collides on the two.
pub hash-valid_injective :
    (env : Env) (uri uri' t u : Str) (xs ys : List Str)
    → prompt uri t xs ≡ none
    → prompt uri' u ys ≡ none
    → NoNul t
    → NoNul u
    → (env.sha256 (content_preimage t xs) ≡ env.sha256 (content_preimage u ys)
        → content_preimage t xs ≡ content_preimage u ys)
    → hash env t xs ≡ hash env u ys
    → (t ≡ u) × (xs ≡ ys)
hash-valid_injective env uri uri' t u xs ys vt vu nt nu =
    hash_injective env t u xs ys nt nu
      (Accepted-AllSlots uri t xs ((prompt-iff-Accepted uri t xs).0 vt))
      (Accepted-AllSlots uri' u ys ((prompt-iff-Accepted uri' u ys).0 vu))
