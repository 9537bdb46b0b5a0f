-- ===== src/Semdiff/Changes.antt =====
-- `changes`: the hunks of a line diff, read off the table of longest common subsequences.
pub mod Table
pub mod Align
pub mod Longest
use promptnet.Prelude.{
  ℕ, zero, suc, ◌+◌, max, ◌||◌, Option, none, some, List, [], ◌∷◌, Str, ◌==◌, str_eq, ltb, leb,
  if◌then◌else◌, length,
}

-- old[old_start:old_end] became new[new_start:new_end]
pub record Change : Type 0 where
  pub old_start : ℕ
  pub old_end : ℕ
  pub new_start : ℕ
  pub new_end : ℕ

abbrev pub first : List ℕ → ℕ
first [] = 0
first (n ∷ _) = n

abbrev pub behind : List ℕ → List ℕ
behind [] = []
behind (_ ∷ row) = row

-- dp[i], from its right end, over dp[i+1]
unfoldable pub fill_row : Str → List Str → List ℕ → List ℕ
fill_row x [] below = 0 ∷ []
fill_row x (y ∷ new) below =
    let rest = fill_row x new (behind below) in
    (if x == y then first (behind below) + 1 else max (first below) (first rest)) ∷ rest

-- dp[n], which stays zero
unfoldable pub zeros : List Str → List ℕ
zeros [] = 0 ∷ []
zeros (_ ∷ new) = 0 ∷ zeros new

abbrev pub first_row : List (List ℕ) → List ℕ
first_row [] = []
first_row (row ∷ _) = row

-- dp, its first row first
unfoldable pub fill : List Str → List Str → List (List ℕ)
unfolding fill_row zeros
fill [] new = zeros new ∷ []
fill (x ∷ old) new = let below = fill old new in fill_row x new (first_row below) ∷ below

abbrev pub nth : List ℕ → ℕ → ℕ
nth [] i = 0
nth (n ∷ row) zero = n
nth (n ∷ row) (suc i) = nth row i

abbrev pub nth_row : List (List ℕ) → ℕ → List ℕ
nth_row [] i = []
nth_row (row ∷ rows) zero = row
nth_row (row ∷ rows) (suc i) = nth_row rows i

-- dp[i][j]
unfoldable pub cell : List (List ℕ) → ℕ → ℕ → ℕ
cell dp i j = nth (nth_row dp i) j

-- the hunk that the inner loop has open, recorded where the loop ends
abbrev pub close : Option (ℕ × ℕ) → ℕ → ℕ → List Change → List Change
close none i j out = out
close (some (old_start, new_start)) i j out =
    record { old_start = old_start; old_end = i; new_start = new_start; new_end = j } ∷ out

abbrev pub opened : Option (ℕ × ℕ) → ℕ → ℕ → ℕ × ℕ
opened none i j = (i, j)
opened (some start) i j = start

-- the trailing insert or delete
unfoldable pub trailing : ℕ → ℕ → ℕ → ℕ → List Change
trailing n m i j =
    if ltb i n || ltb j m
    then record { old_start = i; old_end = n; new_start = j; new_end = m } ∷ []
    else []

-- The two loops over `i` and `j`, on what is left of both files; `start` is set inside the inner
-- loop. Where the lines agree, the inner loop ends and the outer one steps over both.
unfoldable pub walk :
    (ℕ → ℕ → ℕ) → ℕ → ℕ → Option (ℕ × ℕ) → ℕ → ℕ → List Str → List Str → List Change
unfolding trailing
walk dp n m start i j [] new = close start i j (trailing n m i j)
walk dp n m start i j (x ∷ old) [] = close start i j (trailing n m i j)
walk dp n m start i j (x ∷ old) (y ∷ new) =
    let both = walk dp n m none (i + 1) (j + 1) old new in
    let skip_old = walk dp n m (some (opened start i j)) (i + 1) j old (y ∷ new) in
    let skip_new = walk dp n m (some (opened start i j)) i (j + 1) (x ∷ old) new in
    if x == y
    then close start i j both
    else if leb (dp i (j + 1)) (dp (i + 1) j)
    then skip_old
    else skip_new

unfoldable pub changes : List Str → List Str → List Change
unfolding fill cell walk
changes old new = let dp = fill old new in walk (cell dp) (length old) (length new) none 0 0 old new
