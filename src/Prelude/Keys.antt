-- ===== src/Prelude/Keys.antt =====
-- Sets of strings, as the program keeps them in maps: membership, insertion, and `sort.Strings`.
use mathlib.Core.Bool.{Bool, true, false, not, ◌&&◌, ◌||◌}
use mathlib.Core.List.{List, [], ◌∷◌, ◌++◌}
use mathlib.Core.Path.{◌≡◌, refl}
use native.Mathlib.Omega.{arith}
use promptnet.Prelude.Tests.{Str, ltb, nat_beq, equal, equal_iff, if◌then◌else◌}

unfoldable pub contains : List Str → Str → Bool
contains [] a = false
contains (x ∷ xs) a = equal x a || contains xs a

-- m[a] = true; the keys of a map are distinct
unfoldable pub add_key : Str → List Str → List Str
add_key a xs = if contains xs a then xs else xs ++ a ∷ []

-- the keys of `set` after a loop that adds each name
unfoldable pub add_keys : List Str → List Str → List Str
add_keys [] set = set
add_keys (a ∷ names) set = add_keys names (add_key a set)

-- the keys of `xs` that `ys` lacks
unfoldable pub without : List Str → List Str → List Str
without [] ys = []
without (x ∷ xs) ys = let rest = without xs ys in if contains ys x then rest else x ∷ rest

unfoldable pub str_le : Str → Str → Bool
str_le [] b = true
str_le (x ∷ a) [] = false
str_le (x ∷ a) (y ∷ b) = ltb x y || (nat_beq x y && str_le a b)

unfoldable pub insert : Str → List Str → List Str
insert a [] = a ∷ []
insert a (x ∷ xs) = if str_le a x then a ∷ x ∷ xs else x ∷ insert a xs

-- sort.Strings
unfoldable pub sort : List Str → List Str
unfolding insert str_le
sort [] = []
sort (x ∷ xs) = insert x (sort xs)

pub contains-append :
    (xs ys : List Str) (a : Str) → contains (xs ++ ys) a ≡ (contains xs a || contains ys a)
unfolding contains
contains-append [] ys a = refl
contains-append (x ∷ xs) ys a = ground (arith, contains-append xs ys a)

pub contains-add_key :
    (a : Str) (xs : List Str) (b : Str) → contains (add_key a xs) b ≡ (contains xs b || equal a b)
unfolding add_key contains
contains-add_key a xs b = ground (arith, contains-append xs (a ∷ []) b, equal_iff a b)

pub contains-add_keys :
    (names set : List Str) (b : Str)
    → contains (add_keys names set) b ≡ (contains names b || contains set b)
unfolding add_keys contains
contains-add_keys [] set b = refl
contains-add_keys (a ∷ names) set b =
    ground (arith, contains-add_keys names (add_key a set) b, contains-add_key a set b)

pub contains-without :
    (xs ys : List Str) (a : Str)
    → contains (without xs ys) a ≡ (contains xs a && not (contains ys a))
unfolding without contains
contains-without [] ys a = refl
contains-without (x ∷ xs) ys a = ground (arith, contains-without xs ys a, equal_iff x a)

pub contains-insert :
    (a : Str) (xs : List Str) (b : Str) → contains (insert a xs) b ≡ (equal a b || contains xs b)
unfolding insert contains
contains-insert a [] b = refl
contains-insert a (x ∷ xs) b = ground (arith, contains-insert a xs b)

pub contains-sort : (xs : List Str) (a : Str) → contains (sort xs) a ≡ contains xs a
unfolding sort contains
contains-sort [] a = refl
contains-sort (x ∷ xs) a = ground (arith, contains-insert x (sort xs) a, contains-sort xs a)
