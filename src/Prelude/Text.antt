-- ===== src/Prelude/Text.antt =====
-- What the source uses of Go's `strings` package, on byte sequences.
use Prim.Native.Nat.{ℕ, zero, suc}
use mathlib.Core.Bool.{Bool, true, false, ◌&&◌, ◌||◌}
use mathlib.Core.List.{List, [], ◌∷◌, ◌++◌}
use mathlib.Core.Option.{Option, none, some}
use promptnet.Prelude.Tests.{Str, leb, nat_eq, ◌==◌, if◌then◌else◌}

-- strings.HasPrefix(s, p)
unfoldable pub has_prefix : Str → Str → Bool
has_prefix s [] = true
has_prefix [] (_ ∷ _) = false
has_prefix (c ∷ s) (d ∷ p) = c == d && has_prefix s p

-- strings.TrimPrefix(s, p), by what is left behind the prefix
unfoldable pub cut_prefix : Str → Str → Option Str
cut_prefix s [] = some s
cut_prefix [] (_ ∷ _) = none
cut_prefix (c ∷ s) (d ∷ p) = if c == d then cut_prefix s p else none

unfoldable pub trim_prefix : Str → Str → Str
unfolding cut_prefix
trim_prefix s p = elim (cut_prefix s p) [ none ↦ s | some r ↦ r ]

-- s[:i] for i = strings.IndexByte(s, b), and s if there is no such byte
unfoldable pub before_byte : ℕ → Str → Str
before_byte b [] = []
before_byte b (c ∷ s) = if c == b then [] else c ∷ before_byte b s

-- strings.Join(parts, sep)
unfoldable pub join : List Str → Str → Str
join [] sep = []
join (a ∷ []) sep = a
join (a ∷ b ∷ rest) sep = a ++ (sep ++ join (b ∷ rest) sep)

-- strings.Split(s, sep) for a separator of one byte: never empty
unfoldable pub add_head : ℕ → List Str → List Str
add_head c [] = (c ∷ []) ∷ []
add_head c (a ∷ rest) = (c ∷ a) ∷ rest

unfoldable pub split : Str → ℕ → List Str
unfolding add_head
split [] sep = [] ∷ []
split (c ∷ s) sep = let rest = split s sep in if c == sep then [] ∷ rest else add_head c rest

-- The bytes behind the first of an encoded space that begins a string, `none` if it begins with
-- no space: unicode.IsSpace on UTF-8.
abbrev within : ℕ → ℕ → ℕ → Bool
within lo hi c = leb lo c && leb c hi

abbrev ascii_space : ℕ → Bool
ascii_space c = within 9 13 c || c == 32

space_tail3 : ℕ → ℕ → ℕ → Bool
space_tail3 a b c =
    a == 0xe1 && (b == 0x9a && c == 0x80)
    || a == 0xe2
      && (b == 0x80 && (within 0x80 0x8a c || (c == 0xa8 || (c == 0xa9 || c == 0xaf)))
          || b == 0x81 && c == 0x9f)
    || a == 0xe3 && (b == 0x80 && c == 0x80)

unfoldable pub space_more : Str → Option ℕ
unfolding space_tail3
space_more [] = none
space_more (a ∷ []) = if ascii_space a then some 0 else none
space_more (a ∷ b ∷ []) =
    if ascii_space a then some 0 else if a == 0xc2 && (b == 0x85 || b == 0xa0) then some 1 else none
space_more (a ∷ b ∷ c ∷ _) =
    if ascii_space a
    then some 0
    else if a == 0xc2 && (b == 0x85 || b == 0xa0)
    then some 1
    else if space_tail3 a b c
    then some 2
    else none

-- strings.TrimLeftFunc(s, unicode.IsSpace); the number counts the bytes still to drop
unfoldable pub trim_from : ℕ → Str → Str
trim_from k [] = []
trim_from (suc k) (c ∷ s) = trim_from k s
trim_from zero (c ∷ s) = elim (space_more (c ∷ s)) [ none ↦ c ∷ s | some k ↦ trim_from k s ]

unfoldable pub trim_left : Str → Str
unfolding trim_from space_more
trim_left = trim_from 0

-- strings.TrimSpace(s) == ""
unfoldable pub is_blank : Str → Bool
unfolding trim_left
is_blank s = elim (trim_left s) [ [] ↦ true | _ ∷ _ ↦ false ]

-- strings.TrimSpace(s)
unfoldable pub trim_right : Str → Str
trim_right [] = []
trim_right (c ∷ s) = let rest = trim_right s in if is_blank (c ∷ s) then [] else c ∷ rest

unfoldable pub trim_space : Str → Str
unfolding trim_left trim_right
trim_space s = trim_right (trim_left s)

-- strings.Fields(s); `word` is the field that is being read
unfoldable pub close_field : Str → List Str → List Str
close_field [] rest = rest
close_field (c ∷ word) rest = (c ∷ word) ∷ rest

unfoldable pub fields_from : ℕ → Str → Str → List Str
unfolding close_field
fields_from k word [] = close_field word []
fields_from (suc k) word (c ∷ s) = fields_from k word s
fields_from zero word (c ∷ s) = elim (space_more (c ∷ s)) [
  | none ↦ fields_from 0 (word ++ c ∷ []) s
  | some k ↦ close_field word (fields_from k [] s)
]

unfoldable pub fields : Str → List Str
unfolding fields_from
fields s = fields_from 0 [] s
