-- ===== src/Semdiff/Changes/Longest.antt =====
-- No alignment keeps more lines than the table says.
use promptnet.Prelude.{ℕ, suc, ◌≤◌, List, [], ◌∷◌, ◌++◌, Str, str_eq, equal_refl, arith}
use promptnet.Semdiff.Changes.Align.{Aligns, end, keep, hunk, changes-Aligns}
use promptnet.Semdiff.Changes.Table.{lcs, lcs-cons, lcs-nil, lcs-nil_left}
use promptnet.Semdiff.Changes.{Change, changes}

-- one more line on the right adds at most one
abbrev StepsRight : List Str → Type 0
StepsRight xs = (y : Str) (ys : List Str) → lcs xs (y ∷ ys) ≤ suc (lcs xs ys)

abbrev GrowsRight : List Str → Type 0
GrowsRight xs = (y : Str) (ys : List Str) → lcs xs ys ≤ lcs xs (y ∷ ys)

grow_left : (x : Str) (xs ys : List Str) → StepsRight xs → lcs xs ys ≤ lcs (x ∷ xs) ys
grow_left x xs [] h = omega (arith, lcs-nil xs)
grow_left x xs (y ∷ ys) h = ground (arith, lcs-cons x y xs ys, h y ys)

step_right : (xs : List Str) → StepsRight xs
step_right [] y ys = omega (arith, lcs-nil_left (y ∷ ys))
step_right (x ∷ xs) y ys =
    ground (arith, lcs-cons x y xs ys, step_right xs y ys, grow_left x xs ys (step_right xs))

step_left : (x : Str) (xs ys : List Str) → GrowsRight xs → lcs (x ∷ xs) ys ≤ suc (lcs xs ys)
step_left x xs [] h = omega (arith, lcs-nil (x ∷ xs))
step_left x xs (y ∷ ys) h = ground (arith, lcs-cons x y xs ys, step_left x xs ys h, h y ys)

grow_right : (xs : List Str) → GrowsRight xs
grow_right [] y ys = omega (arith, lcs-nil_left ys)
grow_right (x ∷ xs) y ys = ground (arith, lcs-cons x y xs ys, step_left x xs ys (grow_right xs))

grow : (gone come xs ys : List Str) → lcs xs ys ≤ lcs (gone ++ xs) (come ++ ys)
grow [] [] xs ys = omega arith
grow [] (y ∷ come) xs ys = omega (arith, grow [] come xs ys, grow_right xs y (come ++ ys))
grow (x ∷ gone) come xs ys =
    omega
      (arith, grow gone come xs ys, grow_left x (gone ++ xs) (come ++ ys) (step_right (gone ++ xs)))

Aligns-le :
    {i j k : ℕ} {old new : List Str} {out : List Change}
    → Aligns i j old new out k
    → k ≤ lcs old new
Aligns-le end = omega arith
Aligns-le (keep {x} {old} {new} h) = ground (arith, Aligns-le h, lcs-cons x x old new, equal_refl x)
Aligns-le (hunk {old} {new} gone come _ _ _ _ _ eo en h) =
    ground (arith, Aligns-le h, grow gone come old new)

-- `changes` aligns the two files: its hunks come in order, each replaces the lines that it names
-- and at least one, and the lines outside are the same on both sides in the same order. No other
-- list of hunks that aligns the files keeps more lines.
pub changes_longest :
    (old new : List Str)
    → (k : ℕ) × Aligns 0 0 old new (changes old new) k
      × ((out : List Change) (l : ℕ) → Aligns 0 0 old new out l → l ≤ k)
changes_longest old new = (lcs old new, changes-Aligns old new, λ out l h. Aligns-le h)
