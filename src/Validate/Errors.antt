-- ===== src/Validate/Errors.antt =====
-- What each error of `Prompt` says.
use promptnet.Prelude.{
  ◌≡◌, refl, ◌≢◌, true, false, not, ◌&&◌, some, List, [], ◌∷◌, Str, arith, Bool-cases, Option-cases,
  inl, inr, ap, subst,
}
use promptnet.Prelude.Keys.{
  contains, add_keys, without, sort, insert, str_le, contains-without, contains-sort,
}
use promptnet.Prelude.Text.{is_blank}
use promptnet.Validate.Accepts.{
  AllNamed, declare_named, declare_sound, contains-add_keys-nil, Str-cases,
}
use promptnet.Validate.Defs.{
  Invalid, uri_empty, template_empty, slot_empty, undeclared, unused, placeholders, declare,
  compare_slots, prompt,
}

-- in the order of the bytes
abbrev pub IsSorted : List Str → Type 0
IsSorted [] = Unit
IsSorted (x ∷ []) = Unit
IsSorted (x ∷ y ∷ xs) = (str_le x y ≡ true) × IsSorted (y ∷ xs)

str_le_total : (a b : Str) → str_le a b ≡ false → str_le b a ≡ true
unfolding str_le
str_le_total [] b h = cc
str_le_total (x ∷ a) [] h = refl
str_le_total (x ∷ a) (y ∷ b) h = ground (arith, str_le_total a b)

insert-IsSorted : (a : Str) (xs : List Str) → IsSorted xs → IsSorted (insert a xs)
unfolding insert
insert-IsSorted a [] h = tt
insert-IsSorted a (x ∷ []) h = ground (arith, str_le_total a x)
insert-IsSorted a (x ∷ y ∷ xs) h =
    ground (arith, str_le_total a x, str_le_total a y, insert-IsSorted a (y ∷ xs) h.1)

sort-IsSorted : (xs : List Str) → IsSorted (sort xs)
unfolding sort
sort-IsSorted [] = tt
sort-IsSorted (x ∷ xs) = insert-IsSorted x (sort xs) (sort-IsSorted xs)

-- `names` lists, sorted, the keys of `xs` that `ys` lacks
pub record Lacks (names xs ys : List Str) : Type 0 where
  pub sorted : IsSorted names
  pub nonempty : names ≢ []
  pub exact : (n : Str) → contains names n ≡ (contains xs n && not (contains ys n))

abbrev pub Explains : Str → Str → List Str → Invalid → Type 0
Explains uri template slots uri_empty = is_blank uri ≡ true
Explains uri template slots template_empty = (is_blank uri ≡ false) × (is_blank template ≡ true)
Explains uri template slots slot_empty =
    (is_blank uri ≡ false) × (is_blank template ≡ false) × (¬ AllNamed slots)
Explains uri template slots (undeclared names) =
    (is_blank uri ≡ false)
    × (is_blank template ≡ false)
    × AllNamed slots
    × Lacks names (placeholders template) slots
Explains uri template slots (unused names) =
    (is_blank uri ≡ false)
    × (is_blank template ≡ false)
    × AllNamed slots
    × ((n : Str) → contains (placeholders template) n ≡ true → contains slots n ≡ true)
    × Lacks names slots (placeholders template)

Lacks-without :
    (xs ys xs' ys' : List Str) (a : Str) (r : List Str)
    → ((n : Str) → contains xs n ≡ contains xs' n)
    → ((n : Str) → contains ys n ≡ contains ys' n)
    → sort (without xs ys) ≡ a ∷ r
    → Lacks (a ∷ r) xs' ys'
Lacks-without xs ys xs' ys' a r hx hy e = record {
  sorted = rw e at (sort-IsSorted (without xs ys));
  nonempty = λ n. cc;
  exact = λ n. ground (
    arith,
    ap (λ (l : List Str). contains l n) e,
    contains-sort (without xs ys) n,
    contains-without xs ys n,
    hx n,
    hy n,
  );
}

-- where the sorted difference is empty, every name of `xs` is one of `ys`
within :
    (xs ys xs' ys' : List Str)
    → ((n : Str) → contains xs n ≡ contains xs' n)
    → ((n : Str) → contains ys n ≡ contains ys' n)
    → sort (without xs ys) ≡ []
    → (n : Str) → contains xs' n ≡ true
    → contains ys' n ≡ true
unfolding contains
within xs ys xs' ys' hx hy e n h = ground (
  arith,
  ap (λ (l : List Str). contains l n) e,
  contains-sort (without xs ys) n,
  contains-without xs ys n,
  hx n,
  hy n,
  h,
)

compare_slots-Explains :
    (uri template : Str) (slots : List Str) (e : Invalid)
    → is_blank uri ≡ false
    → is_blank template ≡ false
    → AllNamed slots
    → compare_slots (add_keys (placeholders template) []) (add_keys slots []) ≡ some e
    → Explains uri template slots e
unfolding compare_slots
compare_slots-Explains uri template slots e u t named h =
    elim (Str-cases (sort (without found declared))) [
      | inr (x, r, p) ↦
          let is : undeclared (x ∷ r) ≡ e = ground arith in
          subst (Explains uri template slots) is
            (u, t, named, Lacks-without found declared _ _ x r (names _) (names _) p)
      | inl missing ↦ elim (Str-cases (sort (without declared found))) [
        | inl extra ↦ absurd (ground arith)
        | inr (x, r, p) ↦
            let is : unused (x ∷ r) ≡ e = ground arith in
            subst (Explains uri template slots) is (
              u,
              t,
              named,
              within found declared _ _ (names _) (names _) missing,
              Lacks-without declared found _ _ x r (names _) (names _) p,
            )
      ]
    ]
  where
    found : List Str
    found = add_keys (placeholders template) []

    declared : List Str
    declared = add_keys slots []

    names : (l : List Str) (n : Str) → contains (add_keys l []) n ≡ contains l n
    names = contains-add_keys-nil

-- The error that `Prompt` returns is that of the first check that fails, of a blank URI, a blank
-- template, a blank slot name, an undeclared placeholder and an unused slot: all checks before it
-- pass. For an undeclared placeholder it lists, sorted, exactly the placeholders that are not
-- declared, and for an unused slot exactly the declared names that the template does not use.
pub prompt-Explains :
    (uri template : Str) (slots : List Str) (e : Invalid)
    → prompt uri template slots ≡ some e
    → Explains uri template slots e
unfolding prompt
prompt-Explains uri template slots e h = elim (Bool-cases (is_blank uri)) [
  | inl blank ↦
      let is : uri_empty ≡ e = ground arith in subst (Explains uri template slots) is blank
  | inr named ↦ elim (Bool-cases (is_blank template)) [
    | inl blank ↦
        let is : template_empty ≡ e = ground arith in
        subst (Explains uri template slots) is (named, blank)
    | inr written ↦ elim (Option-cases (declare slots [])) [
      | inl blank ↦
          let is : slot_empty ≡ e = ground arith in
          subst (Explains uri template slots) is
            (named, written, λ all. ground (arith, declare_named slots [] all))
      | inr (declared, d) ↦
          let (all, keys) = declare_sound slots [] declared d in
          compare_slots-Explains uri template slots e named written all (ground (arith, keys))
    ]
  ]
]
