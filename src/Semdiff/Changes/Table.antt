-- ===== src/Semdiff/Changes/Table.antt =====
-- The table holds the lengths of longest common subsequences.
use promptnet.Prelude.{
  ℕ, zero, suc, ◌≡◌, max, refl, sym, ap, List, [], ◌∷◌, Str, ◌==◌, str_eq, if◌then◌else◌, drop,
  arith,
}
use promptnet.Semdiff.Changes.{first, fill_row, zeros, first_row, fill, nth, nth_row, cell}

-- the length of a longest common subsequence
unfoldable pub lcs : List Str → List Str → ℕ
lcs [] ys = 0
lcs (x ∷ xs) [] = 0
lcs (x ∷ xs) (y ∷ ys) = if x == y then suc (lcs xs ys) else max (lcs xs (y ∷ ys)) (lcs (x ∷ xs) ys)

pub lcs-nil : (xs : List Str) → lcs xs [] ≡ 0
unfolding lcs
lcs-nil [] = refl
lcs-nil (x ∷ xs) = refl

pub lcs-cons :
    (x y : Str) (xs ys : List Str)
    → lcs (x ∷ xs) (y ∷ ys)
      ≡ (if x == y then suc (lcs xs ys) else max (lcs xs (y ∷ ys)) (lcs (x ∷ xs) ys))
unfolding lcs
lcs-cons x y xs ys = refl

-- the row of one suffix of the old file, over all suffixes of the new one
lcs_row : List Str → List Str → List ℕ
lcs_row old [] = lcs old [] ∷ []
lcs_row old (y ∷ new) = lcs old (y ∷ new) ∷ lcs_row old new

first-lcs_row : (old new : List Str) → first (lcs_row old new) ≡ lcs old new
unfolding lcs_row
first-lcs_row old [] = refl
first-lcs_row old (y ∷ new) = refl

fill_row-lcs_row :
    (x : Str) (old new : List Str) → fill_row x new (lcs_row old new) ≡ lcs_row (x ∷ old) new
unfolding fill_row lcs_row
fill_row-lcs_row x old [] = ap (λ n. n ∷ []) (sym (lcs-nil (x ∷ old)))
fill_row-lcs_row x old (y ∷ new) = ground (
  arith,
  fill_row-lcs_row x old new,
  first-lcs_row old new,
  first-lcs_row (x ∷ old) new,
  lcs-cons x y old new,
)

zeros-lcs_row : (new : List Str) → zeros new ≡ lcs_row [] new
unfolding zeros lcs_row lcs
zeros-lcs_row [] = refl
zeros-lcs_row (y ∷ new) = ap (◌∷◌ 0) (zeros-lcs_row new)

lcs_rows : List Str → List Str → List (List ℕ)
lcs_rows [] new = lcs_row [] new ∷ []
lcs_rows (x ∷ old) new = lcs_row (x ∷ old) new ∷ lcs_rows old new

first_row-lcs_rows : (old new : List Str) → first_row (lcs_rows old new) ≡ lcs_row old new
unfolding lcs_rows
first_row-lcs_rows [] new = refl
first_row-lcs_rows (x ∷ old) new = refl

fill-lcs_rows : (old new : List Str) → fill old new ≡ lcs_rows old new
unfolding fill lcs_rows
fill-lcs_rows [] new = ap (λ r. r ∷ []) (zeros-lcs_row new)
fill-lcs_rows (x ∷ old) new =
    ground (arith, fill-lcs_rows old new, first_row-lcs_rows old new, fill_row-lcs_row x old new)

nth-lcs_row : (old new : List Str) (j : ℕ) → nth (lcs_row old new) j ≡ lcs old (drop j new)
unfolding lcs_row
nth-lcs_row old [] zero = refl
nth-lcs_row old [] (suc j) = sym (lcs-nil old)
nth-lcs_row old (y ∷ new) zero = refl
nth-lcs_row old (y ∷ new) (suc j) = nth-lcs_row old new j

pub lcs-nil_left : (ys : List Str) → lcs [] ys ≡ 0
unfolding lcs
lcs-nil_left ys = refl

nth_row-lcs_rows :
    (old new : List Str) (i j : ℕ)
    → nth (nth_row (lcs_rows old new) i) j ≡ lcs (drop i old) (drop j new)
unfolding lcs_rows
nth_row-lcs_rows [] new zero j = nth-lcs_row [] new j
nth_row-lcs_rows [] new (suc i) j = sym (lcs-nil_left (drop j new))
nth_row-lcs_rows (x ∷ old) new zero j = nth-lcs_row (x ∷ old) new j
nth_row-lcs_rows (x ∷ old) new (suc i) j = nth_row-lcs_rows old new i j

-- dp[i][j] is the length of a longest common subsequence of what is left behind i and j.
pub cell-lcs :
    (old new : List Str) (i j : ℕ) → cell (fill old new) i j ≡ lcs (drop i old) (drop j new)
unfolding cell
cell-lcs old new i j = rw fill-lcs_rows (nth_row-lcs_rows old new i j)
