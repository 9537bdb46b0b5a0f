-- ===== src/Store/Examples/Codec.antt =====
-- A codec for the tests: each string behind its length.
use promptnet.Prelude.{
  ℕ, zero, suc, ◌≡◌, refl, ap, ◌∙◌, List, [], ◌∷◌, ◌++◌, Str, length, take, drop, take_left,
  drop_left, append_assoc, arith,
}

unfoldable pub put_str : Str → Str → Str
put_str s rest = length s ∷ (s ++ rest)

unfoldable pub get_str : Str → Str × Str
get_str [] = ([], [])
get_str (n ∷ s) = (take n s, drop n s)

pub get_str-put_str : (s rest : Str) → get_str (put_str s rest) ≡ (s, rest)
unfolding get_str put_str
get_str-put_str s rest = ground (arith, take_left s rest, drop_left s rest)

unfoldable pub put_all : List Str → Str → Str
unfolding put_str
put_all [] rest = rest
put_all (s ∷ l) rest = put_str s (put_all l rest)

unfoldable pub get_all : ℕ → Str → List Str × Str
unfolding get_str
get_all zero text = ([], text)
get_all (suc n) text =
    let (s, more) = get_str text in let (l, rest) = get_all n more in (s ∷ l, rest)

pub get_all-put_all : (l : List Str) (rest : Str) → get_all (length l) (put_all l rest) ≡ (l, rest)
unfolding get_all put_all
get_all-put_all [] rest = refl
get_all-put_all (s ∷ l) rest =
    ground (arith, get_str-put_str s (put_all l rest), get_all-put_all l rest)

unfoldable pub put_list : List Str → Str → Str
unfolding put_all
put_list l rest = length l ∷ put_all l rest

unfoldable pub get_list : Str → List Str × Str
unfolding get_all
get_list [] = ([], [])
get_list (n ∷ s) = get_all n s

pub get_list-put_list : (l : List Str) (rest : Str) → get_list (put_list l rest) ≡ (l, rest)
unfolding get_list put_list
get_list-put_list l rest = get_all-put_all l rest

pub put_list-append : (l : List Str) (rest : Str) → put_list l [] ++ rest ≡ put_list l rest
unfolding put_list put_all put_str
put_list-append l rest = ap (◌∷◌ (length l)) (put_all-append l)
  where
    put_all-append : (l : List Str) → put_all l [] ++ rest ≡ put_all l rest
    put_all-append [] = refl
    put_all-append (s ∷ l) =
        ap (◌∷◌ (length s))
          (append_assoc s (put_all l []) rest ∙ ap (λ t. s ++ t) (put_all-append l))
