-- ===== src/Store/Hash/Injective.antt =====
-- What the digests of `Hash` and `CommitHash` identify.
use promptnet.Prelude.{◌≡◌, ◌≢◌, refl, sym, ap, List, [], ◌∷◌, ◌++◌, Str, arith, append_assoc}
use promptnet.Prelude.Text.{join}
use promptnet.Store.Env.{Env}
use promptnet.Store.Hash.{
  hex, content_preimage, fields_preimage, commit_preimage, hash, commit_hash,
}

-- no byte is NUL
abbrev pub NoNul : Str → Type 0
NoNul [] = Unit
NoNul (c ∷ s) = (c ≢ 0) × NoNul s

-- what stands before the first NUL, and what stands behind it, are determined
cut_nul : (a b x y : Str) → NoNul a → NoNul b → a ++ (0 ∷ x) ≡ b ++ (0 ∷ y) → (a ≡ b) × (x ≡ y)
cut_nul [] [] x y ha hb e = (refl, ground arith)
cut_nul [] (d ∷ b) x y ha hb e = absurd (hb.0 (ground arith))
cut_nul (c ∷ a) [] x y ha hb e = absurd (ha.0 (ground arith))
cut_nul (c ∷ a) (d ∷ b) x y ha hb e = ground (arith, cut_nul a b x y ha.1 hb.1)

NoNul_only : (a y : Str) → NoNul a → ¬ (a ≡ a ++ (0 ∷ y))
NoNul_only [] y h e = cc
NoNul_only (c ∷ a) y h e = NoNul_only a y h.1 (ground arith)

-- a string with no NUL is no string with one
nul-ne : (a b y : Str) → NoNul a → ¬ (a ≡ b ++ (0 ∷ y))
nul-ne [] [] y h e = cc
nul-ne [] (d ∷ b) y h e = cc
nul-ne (c ∷ a) [] y h e = h.0 (ground arith)
nul-ne (c ∷ a) (d ∷ b) y h e = nul-ne a b y h.1 (ground arith)

-- a slot name: not empty, no NUL
abbrev pub AllSlots : List Str → Type 0
AllSlots [] = Unit
AllSlots (s ∷ slots) = (s ≢ []) × NoNul s × AllSlots slots

join_injective :
    (xs ys : List Str) → AllSlots xs → AllSlots ys → join xs (0 ∷ []) ≡ join ys (0 ∷ []) → xs ≡ ys
unfolding join
join_injective [] [] hx hy e = refl
join_injective [] (b ∷ []) hx hy e = absurd (hy.0 (sym e))
join_injective [] (b ∷ b' ∷ ys) hx hy e = absurd (nul-ne [] b _ tt e)
join_injective (a ∷ []) [] hx hy e = absurd (hx.0 e)
join_injective (a ∷ a' ∷ xs) [] hx hy e = absurd (nul-ne [] a _ tt (sym e))
join_injective (a ∷ []) (b ∷ []) hx hy e = ap (λ x. x ∷ []) e
join_injective (a ∷ []) (b ∷ b' ∷ ys) hx hy e = absurd (nul-ne a b _ hx.1 e)
join_injective (a ∷ a' ∷ xs) (b ∷ []) hx hy e = absurd (nul-ne b a _ hy.1 (sym e))
join_injective (a ∷ a' ∷ xs) (b ∷ b' ∷ ys) hx hy e =
    let (heads, tails) = cut_nul a b _ _ hx.1 hy.1 e in
    ground (arith, join_injective (a' ∷ xs) (b' ∷ ys) hx.2 hy.2 tails)

-- What `Hash` digests determines template and slots, if neither holds a NUL and no slot is empty.
pub content_preimage_injective :
    (t u : Str) (xs ys : List Str)
    → NoNul t
    → NoNul u
    → AllSlots xs
    → AllSlots ys
    → content_preimage t xs ≡ content_preimage u ys
    → (t ≡ u) × (xs ≡ ys)
unfolding content_preimage
content_preimage_injective t u xs ys ht hu hx hy e =
    let (heads, tails) = cut_nul t u _ _ ht hu e in (heads, join_injective xs ys hx hy tails)

hex_injective : (a b : Str) → hex a ≡ hex b → a ≡ b
unfolding hex
hex_injective [] [] e = refl
hex_injective [] (d ∷ b) e = cc
hex_injective (c ∷ a) [] e = cc
hex_injective (c ∷ a) (d ∷ b) e =
    let bytes : c ≡ d = ground arith in ground (arith, bytes, hex_injective a b)

concat_injective : (a b : Str) → a ++ (0 ∷ []) ≡ b ++ (0 ∷ []) → a ≡ b
concat_injective [] [] e = refl
concat_injective [] (d ∷ []) e = cc
concat_injective [] (d ∷ d' ∷ b) e = cc
concat_injective (c ∷ []) [] e = cc
concat_injective (c ∷ c' ∷ a) [] e = cc
concat_injective (c ∷ a) (d ∷ b) e = ground (arith, concat_injective a b)

-- The five fields that `CommitHash` digests
pub record Identity : Type 0 where
  pub version_hash : Str
  pub parent : Str
  pub parent2 : Str
  pub author : Str
  pub message : Str

abbrev pub preimage : Identity → Str
preimage i = commit_preimage i.version_hash i.parent i.parent2 i.author i.message

-- the message may hold a NUL
pub record IsPlain (i : Identity) : Type 0 where
  pub version_hash : NoNul i.version_hash
  pub parent : NoNul i.parent
  pub parent2 : NoNul i.parent2
  pub author : NoNul i.author

pub preimage_injective : (i j : Identity) → IsPlain i → IsPlain j → preimage i ≡ preimage j → i ≡ j
unfolding commit_preimage fields_preimage
preimage_injective i j hi hj e =
    let (e₁, r₁) = cut_nul i.version_hash j.version_hash _ _ hi.version_hash hj.version_hash e in
    let (e₂, r₂) = cut_nul i.parent j.parent _ _ hi.parent hj.parent r₁ in
    let (e₃, r₃) = cut_nul i.parent2 j.parent2 _ _ hi.parent2 hj.parent2 r₂ in
    let (e₄, r₄) = cut_nul i.author j.author _ _ hi.author hj.author r₃ in
    let e₅ = concat_injective i.message j.message r₄ in
    λ k. record {
      version_hash = e₁ k;
      parent = e₂ k;
      parent2 = e₃ k;
      author = e₄ k;
      message = e₅ k;
    }

module _ (env : Env) where
  -- Two commits of one hash agree in content hash, parents, author and message: if no header field
  -- holds a NUL and the digest does not collide on these two inputs.
  pub commit_hash_injective :
      (i j : Identity)
      → IsPlain i
      → IsPlain j
      → (env.sha256 (preimage i) ≡ env.sha256 (preimage j) → preimage i ≡ preimage j)
      → commit_hash env i.version_hash i.parent i.parent2 i.author i.message
        ≡ commit_hash env j.version_hash j.parent j.parent2 j.author j.message
      → i ≡ j
  unfolding commit_hash
  commit_hash_injective i j hi hj no_collision e =
      preimage_injective i j hi hj (no_collision (hex_injective _ _ e))

  -- A slot in front of other slots may as well stand behind a NUL at the end of the template: the
  -- two contents have one version hash, whatever the digest.
  pub hash_collision :
      (t s x : Str) (xs : List Str) → hash env t (s ∷ x ∷ xs) ≡ hash env (t ++ (0 ∷ s)) (x ∷ xs)
  unfolding hash content_preimage join
  hash_collision t s x xs = rw append_assoc

  pub hash_injective :
      (t u : Str) (xs ys : List Str)
      → NoNul t
      → NoNul u
      → AllSlots xs
      → AllSlots ys
      → (env.sha256 (content_preimage t xs) ≡ env.sha256 (content_preimage u ys)
          → content_preimage t xs ≡ content_preimage u ys)
      → hash env t xs ≡ hash env u ys
      → (t ≡ u) × (xs ≡ ys)
  unfolding hash
  hash_injective t u xs ys ht hu hx hy no_collision e =
      content_preimage_injective t u xs ys ht hu hx hy (no_collision (hex_injective _ _ e))
