-- ===== src/Semdiff/Examples.antt =====
-- The theorems about the propagation diff at concrete files, with natural numbers for floats.
use promptnet.Prelude.{
  ℕ, ◌+◌, ◌-◌, ◌*◌, ◌/◌, ◌≤◌, ◌≡◌, refl, Option, none, some, List, [], ◌∷◌, Str, codes, map, min,
  max, ltb, leb, ◌==◌, nat_eq,
}
use promptnet.Semdiff.Answers.{analyze-lexical}
use promptnet.Semdiff.Embedders.{Counting, Http, lexical, embed_with, fnv32a, xor}
use promptnet.Semdiff.Analyze.{ok, Report, analyze}
use promptnet.Semdiff.Changes.{Change, changes}
use promptnet.Semdiff.Changes.Align.{Aligns}
use promptnet.Semdiff.Changes.Longest.{changes_longest}
use promptnet.Semdiff.Float.{Float}
use promptnet.Semdiff.Returns.{Returns, Refuses, Empties, analyze-Returns}

-- hundredths
abbrev pub hundredths : Float
hundredths = record {
  Double = ℕ;
  Single = ℕ;
  widen = λ x. x;
  zero = 0;
  one = 100;
  add = λ x y. x + y;
  sub = λ x y. x - y;
  mul = λ x y. x * y / 100;
  div = λ x y. x * 100 / y;
  sqrt = λ x. x;
  abs = λ x. x;
  min = min;
  max = max;
  lt = ltb;
  ge = λ x y. leb y x;
  eq = λ x y. x == y;
  flatten_eps = 2;
  local_thresh = 15;
  struct_min_delta = 15;
}

abbrev pub lengths : ℕ → Str → Option (List (List ℕ))
lengths n t = some ((100 ∷ n ∷ []) ∷ [])

abbrev old : List Str
old = codes "a" ∷ codes "b" ∷ codes "c" ∷ []

abbrev new : List Str
new = codes "a" ∷ codes "x" ∷ codes "c" ∷ codes "d" ∷ []

changes_longest_example :
    (k : ℕ) × Aligns 0 0 old new (changes old new) k
    × ((out : List Change) (l : ℕ) → Aligns 0 0 old new out l → l ≤ k)
changes_longest_example = changes_longest old new

analyze-Returns_example :
    Returns
      (Refuses hundredths lengths)
      (Empties hundredths lengths)
      (λ rs. map (λ (r : Report hundredths). r.change) rs ≡ changes old new)
      (analyze hundredths lengths old new 60).0
analyze-Returns_example = analyze-Returns hundredths lengths old new 60

abbrev net : Http hundredths
net = record { marshal = λ model texts. model; post = λ url auth body. none; decode = λ body. none }

abbrev counting : Counting hundredths
counting = record { none_yet = 0; one_more = λ n. n + 100; words = λ t. t ∷ [] }

-- the published test vector of FNV-1a for "a"
test_fnv : fnv32a (codes "a") ≡ 0xe40c292c
unfolding fnv32a xor
test_fnv = refl

analyze-lexical_example :
    (rs : List (Report hundredths)) × ((analyze hundredths
        (λ n. embed_with hundredths net counting lexical)
        old
        new
        40).0
      ≡ ok rs)
    × (map (λ (r : Report hundredths). r.change) rs ≡ changes old new)
analyze-lexical_example = analyze-lexical hundredths net counting old new 40
