-- ===== src/Command/Tokens/Loads/Trims.antt =====
-- A trimmed line that is not empty has a field.
use promptnet.Prelude.{
  ℕ, zero, suc, ◌≡◌, ◌≢◌, refl, sym, ap, subst, true, false, none, some, [], ◌∷◌, ◌++◌, Str, str_eq,
  arith, Bool-cases, Option-cases, ◌⊎◌, inl, inr,
}
use promptnet.Prelude.Text.{
  space_more, trim_left, trim_from, trim_right, trim_space, is_blank, fields, fields_from,
  close_field,
}

-- a string that a space begins still begins with it if it goes on
space_more-append : (s t : Str) (k : ℕ) → space_more s ≡ some k → space_more (s ++ t) ≡ some k
unfolding space_more
space_more-append [] t k e = absurd cc
space_more-append (a ∷ []) [] k e = e
space_more-append (a ∷ []) (b ∷ []) k e = ground (arith, e)
space_more-append (a ∷ []) (b ∷ c ∷ t) k e = ground (arith, e)
space_more-append (a ∷ b ∷ []) [] k e = e
space_more-append (a ∷ b ∷ []) (c ∷ t) k e = ground (arith, e)
space_more-append (a ∷ b ∷ c ∷ s) t k e = e

trim_right-prefix : (s : Str) → (t : Str) × (trim_right s ++ t ≡ s)
unfolding trim_right
trim_right-prefix [] = ([], refl)
trim_right-prefix (c ∷ s) = elim (Bool-cases (is_blank (c ∷ s))) [
  | inl blank ↦ (c ∷ s, rw blank refl)
  | inr other ↦ let (t, e) = trim_right-prefix s in (t, rw other (ap (◌∷◌ c) e))
]

-- no space begins what the trimming leaves
abbrev Starts : Str → Type 0
Starts [] = Unit
Starts (c ∷ s) = space_more (c ∷ s) ≡ none

trim_from-Starts : (k : ℕ) (s : Str) → Starts (trim_from k s)
unfolding trim_from
trim_from-Starts k [] = tt
trim_from-Starts (suc k) (c ∷ s) = trim_from-Starts k s
trim_from-Starts zero (c ∷ s) = elim (Option-cases (space_more (c ∷ s))) [
  | inl nothing ↦ subst Starts (sym (stays nothing)) nothing
  | inr (k, more) ↦ subst Starts (sym (goes k more)) (trim_from-Starts k s)
]
  where
    stays : space_more (c ∷ s) ≡ none → trim_from 0 (c ∷ s) ≡ c ∷ s
    stays e = ground arith

    goes : (k : ℕ) → space_more (c ∷ s) ≡ some k → trim_from 0 (c ∷ s) ≡ trim_from k s
    goes k e = ground arith

Starts-trim_right : (s : Str) → Starts s → Starts (trim_right s)
unfolding trim_right
Starts-trim_right [] h = tt
Starts-trim_right (c ∷ s) h = elim (Bool-cases (is_blank (c ∷ s))) [
  | inl blank ↦ subst Starts (sym (drops blank)) tt
  | inr other ↦
      subst Starts (sym (keeps other)) (kept (Option-cases (space_more (c ∷ trim_right s))))
]
  where
    drops : is_blank (c ∷ s) ≡ true → trim_right (c ∷ s) ≡ []
    drops e = ground arith

    keeps : is_blank (c ∷ s) ≡ false → trim_right (c ∷ s) ≡ c ∷ trim_right s
    keeps e = ground arith

    kept :
        (space_more (c ∷ trim_right s) ≡ none)
          ⊎ ((k : ℕ) × (space_more (c ∷ trim_right s) ≡ some k))
        → Starts (c ∷ trim_right s)
    kept (inl e) = e
    kept (inr (k, e)) =
        let (t, p) = trim_right-prefix s in
        absurd (
          ground
            (arith, space_more-append (c ∷ trim_right s) t k e, ap (λ x. space_more (c ∷ x)) p, h))

-- a field that has begun is closed in the end
fields_from-word : (k : ℕ) (c : ℕ) (word s : Str) → fields_from k (c ∷ word) s ≢ []
unfolding fields_from close_field
fields_from-word k c word [] e = absurd cc
fields_from-word (suc k) c word (d ∷ s) e = fields_from-word k c word s e
fields_from-word zero c word (d ∷ s) e = elim (Option-cases (space_more (d ∷ s))) [
  | inl nothing ↦ fields_from-word 0 c (word ++ d ∷ []) s (ground (arith, e))
  | inr (k, more) ↦ absurd (ground (arith, e))
]

fields_nonempty : (s : Str) → Starts s → s ≢ [] → fields s ≢ []
unfolding fields fields_from
fields_nonempty [] h ne e = ne refl
fields_nonempty (c ∷ s) h ne e = fields_from-word 0 c [] s (ground (arith, h, e))

pub fields_trimmed : (line : Str) → trim_space line ≢ [] → fields (trim_space line) ≢ []
unfolding trim_space trim_left
fields_trimmed line =
    fields_nonempty (trim_right (trim_from 0 line))
      (Starts-trim_right (trim_from 0 line) (trim_from-Starts 0 line))
