-- ===== src/Prelude/Words.antt =====
-- `trim_space` and `fields` on visible ASCII and blanks.
use Prim.Native.Nat.{ℕ, ◌≤◌}
use mathlib.Core.Bool.{false}
use mathlib.Core.List.{[], ◌∷◌, ◌++◌, append_assoc, append-nil}
use mathlib.Core.Option.{none, some}
use mathlib.Core.Path.{◌≡◌, refl, sym, ap, ◌∙◌}
use native.Mathlib.Omega.{arith}
use promptnet.Prelude.Tests.{Str}
use promptnet.Prelude.Text.{
  space_more, trim_left, trim_from, trim_right, trim_space, is_blank, fields, fields_from,
  close_field,
}

-- a byte from '!' to '~'
abbrev pub Visible : ℕ → Type 0
Visible c = (33 ≤ c) × (c ≤ 126)

abbrev pub AllVisible : Str → Type 0
AllVisible [] = Unit
AllVisible (c ∷ s) = Visible c × AllVisible s

Visible-space_more : (c : ℕ) (s : Str) → Visible c → space_more (c ∷ s) ≡ none
unfolding space_more
Visible-space_more c [] v = ground (arith, v.0, v.1)
Visible-space_more c (d ∷ []) v = ground (arith, v.0, v.1)
Visible-space_more c (d ∷ e ∷ s) v = ground (arith, v.0, v.1)

blank-space_more : (s : Str) → space_more (32 ∷ s) ≡ some 0
unfolding space_more
blank-space_more [] = refl
blank-space_more (d ∷ []) = refl
blank-space_more (d ∷ e ∷ s) = refl

trim_left-Visible : (c : ℕ) (s : Str) → Visible c → trim_left (c ∷ s) ≡ c ∷ s
unfolding trim_left trim_from
trim_left-Visible c s v = ground (arith, Visible-space_more c s v)

trim_left-blank : (s : Str) → trim_left (32 ∷ s) ≡ trim_left s
unfolding trim_left trim_from
trim_left-blank s = ground (arith, blank-space_more s)

is_blank-Visible : (c : ℕ) (s : Str) → Visible c → is_blank (c ∷ s) ≡ false
unfolding is_blank
is_blank-Visible c s v = ground (arith, trim_left-Visible c s v)

is_blank-blank : (s : Str) → is_blank (32 ∷ s) ≡ is_blank s
unfolding is_blank
is_blank-blank s = ground (arith, trim_left-blank s)

trim_right-Visible : (c : ℕ) (s : Str) → Visible c → trim_right (c ∷ s) ≡ c ∷ trim_right s
unfolding trim_right
trim_right-Visible c s v = ground (arith, is_blank-Visible c s v)

trim_right-blank : (c : ℕ) (s : Str) → Visible c → trim_right (32 ∷ c ∷ s) ≡ 32 ∷ trim_right (c ∷ s)
trim_right-blank c s v =
    unfold trim_right in ground (arith, is_blank-blank (c ∷ s), is_blank-Visible c s v)

pub trim_right-AllVisible :
    (s t : Str) → AllVisible s → trim_right t ≡ t → trim_right (s ++ t) ≡ s ++ t
trim_right-AllVisible [] t v e = e
trim_right-AllVisible (c ∷ s) t v e =
    trim_right-Visible c (s ++ t) v.0 ∙ ap (◌∷◌ c) (trim_right-AllVisible s t v.1 e)

-- two visible words and a blank between them
abbrev pub two_words : Str → Str → Str
two_words a b = a ++ (32 ∷ b)

trim_right-all : (s : Str) → AllVisible s → trim_right s ≡ s
unfolding trim_right
trim_right-all [] v = refl
trim_right-all (c ∷ s) v = trim_right-Visible c s v.0 ∙ ap (◌∷◌ c) (trim_right-all s v.1)

pub trim_space-two_words :
    (c : ℕ) (a : Str) (d : ℕ) (b : Str)
    → AllVisible (c ∷ a)
    → AllVisible (d ∷ b)
    → trim_space (two_words (c ∷ a) (d ∷ b)) ≡ two_words (c ∷ a) (d ∷ b)
unfolding trim_space
trim_space-two_words c a d b v w =
    ap trim_right (trim_left-Visible c (a ++ (32 ∷ d ∷ b)) v.0)
    ∙ trim_right-AllVisible (c ∷ a) (32 ∷ d ∷ b) v
        (trim_right-blank d b w.0 ∙ ap (◌∷◌ 32) (trim_right-all (d ∷ b) w))

fields_from-Visible :
    (word : Str) (c : ℕ) (s : Str)
    → Visible c
    → fields_from 0 word (c ∷ s) ≡ fields_from 0 (word ++ c ∷ []) s
unfolding fields_from
fields_from-Visible word c s v = ground (arith, Visible-space_more c s v)

fields_from-blank :
    (word s : Str) → fields_from 0 word (32 ∷ s) ≡ close_field word (fields_from 0 [] s)
unfolding fields_from
fields_from-blank word s = ground (arith, blank-space_more s)

fields_from-AllVisible :
    (word s t : Str) → AllVisible s → fields_from 0 word (s ++ t) ≡ fields_from 0 (word ++ s) t
fields_from-AllVisible word [] t v = ap (λ w. fields_from 0 w t) (sym (append-nil word))
fields_from-AllVisible word (c ∷ s) t v =
    fields_from-Visible word c (s ++ t) v.0
    ∙ fields_from-AllVisible (word ++ c ∷ []) s t v.1
    ∙ ap (λ w. fields_from 0 w t) (append_assoc word (c ∷ []) s)

pub fields-two_words :
    (c : ℕ) (a : Str) (d : ℕ) (b : Str)
    → AllVisible (c ∷ a)
    → AllVisible (d ∷ b)
    → fields (two_words (c ∷ a) (d ∷ b)) ≡ (c ∷ a) ∷ (d ∷ b) ∷ []
unfolding fields
fields-two_words c a d b v w =
    fields_from-AllVisible [] (c ∷ a) (32 ∷ d ∷ b) v
    ∙ fields_from-blank (c ∷ a) (d ∷ b)
    ∙ unfold close_field in ap (◌∷◌ (c ∷ a)) (last (d ∷ b) w)
  where
    last : (s : Str) → AllVisible s → fields_from 0 [] s ≡ fields_from 0 s []
    last s v = ap (fields_from 0 []) (sym (append-nil s)) ∙ fields_from-AllVisible [] s [] v
