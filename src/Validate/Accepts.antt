-- ===== src/Validate/Accepts.antt =====
-- Which prompts are valid, and what each error says.
use promptnet.Prelude.{
  ◌≡◌, ◌↔◌, refl, sym, ◌∙◌, Bool, true, false, none, some, List, [], ◌∷◌, Str, arith, equal_refl,
  Bool-cases, Option-cases, inl, inr, ◌⊎◌,
}
use promptnet.Prelude.Keys.{
  contains, add_key, add_keys, without, sort, contains-add_keys, contains-without, contains-sort,
}
use promptnet.Prelude.Text.{is_blank}
use promptnet.Validate.Defs.{placeholders, declare, compare_slots, prompt}

-- no slot name is blank
abbrev pub AllNamed : List Str → Type 0
AllNamed [] = Unit
AllNamed (s ∷ slots) = (is_blank s ≡ false) × AllNamed slots

-- the template's placeholders and the declared slots are the same names
abbrev pub SameNames : Str → List Str → Type 0
SameNames template slots = (n : Str) → contains (placeholders template) n ≡ contains slots n

pub record Accepted (uri template : Str) (slots : List Str) : Type 0 where
  pub uri_named : is_blank uri ≡ false
  pub template_written : is_blank template ≡ false
  pub slots_named : AllNamed slots
  pub same_names : SameNames template slots

pub declare_named :
    (slots declared : List Str)
    → AllNamed slots
    → declare slots declared ≡ some (add_keys slots declared)
unfolding declare add_keys
declare_named [] declared h = refl
declare_named (s ∷ slots) declared h = ground (arith, declare_named slots (add_key s declared) h.1)

pub declare_sound :
    (slots declared all : List Str)
    → declare slots declared ≡ some all
    → AllNamed slots × (all ≡ add_keys slots declared)
unfolding declare add_keys
declare_sound [] declared all h = ground arith
declare_sound (s ∷ slots) declared all h = elim (Bool-cases (is_blank s)) [
  | inl blank ↦ absurd (ground arith)
  | inr named ↦
      let rest = declare_sound slots (add_key s declared) all (ground arith) in
      ((named, rest.0), rest.1)
]

contains-nil : (a : Str) → contains [] a ≡ false
unfolding contains
contains-nil a = refl

contains_head : (a : Str) (xs : List Str) → contains (a ∷ xs) a ≡ true
unfolding contains
contains_head a xs = rw equal_refl

pub contains-add_keys-nil :
    (names : List Str) (a : Str) → contains (add_keys names []) a ≡ contains names a
contains-add_keys-nil names a = ground (arith, contains-add_keys names [] a, contains-nil a)

-- a sorted difference is empty exactly if nothing is missing
without_nil :
    (xs ys : List Str)
    → sort (without xs ys) ≡ []
    → (a : Str) → contains xs a ≡ true
    → contains ys a ≡ true
without_nil xs ys e a h =
    ground (arith, contains-sort (without xs ys) a, contains-without xs ys a, contains-nil a)

nil_without :
    (xs ys l : List Str)
    → ((a : Str) → contains xs a ≡ contains ys a)
    → sort (without xs ys) ≡ l
    → l ≡ []
nil_without xs ys [] same e = refl
nil_without xs ys (a ∷ l) same e = absurd (
    ground
      (arith, same a, contains-sort (without xs ys) a, contains-without xs ys a, contains_head a l))

compare_slots_accepts :
    (found declared : List Str)
    → ((a : Str) → contains found a ≡ contains declared a)
    → compare_slots found declared ≡ none
unfolding compare_slots
compare_slots_accepts found declared same = ground (
  arith,
  nil_without found declared (sort (without found declared)) same refl,
  nil_without declared found (sort (without declared found)) (λ a. sym (same a)) refl,
)

pub Str-cases : (l : List Str) → (l ≡ []) ⊎ ((a : Str) × (r : List Str) × (l ≡ a ∷ r))
Str-cases [] = inl refl
Str-cases (a ∷ r) = inr (a, r, refl)

both_true : (x y : Bool) → (x ≡ true → y ≡ true) → (y ≡ true → x ≡ true) → x ≡ y
both_true x y f g = ground arith

compare_slots_sound :
    (found declared : List Str)
    → compare_slots found declared ≡ none
    → (a : Str) → contains found a ≡ contains declared a
unfolding compare_slots
compare_slots_sound found declared h a = elim (Str-cases (sort (without found declared))) [
  | inr (x, r, e) ↦ absurd (ground arith)
  | inl missing ↦ elim (Str-cases (sort (without declared found))) [
    | inr (x, r, e) ↦ absurd (ground arith)
    | inl extra ↦
        both_true _ _ (without_nil found declared missing a) (without_nil declared found extra a)
  ]
]

-- `Prompt` returns no error exactly when the URI, the template and every slot name hold more than
-- white space, and the placeholders of the template are the declared slots, no more and no fewer.
pub prompt-iff-Accepted :
    (uri template : Str) (slots : List Str)
    → (prompt uri template slots ≡ none) ↔ Accepted uri template slots
unfolding prompt
prompt-iff-Accepted uri template slots = (sound, complete)
  where
    names :
        (a : Str)
        → contains (add_keys (placeholders template) []) a ≡ contains (placeholders template) a
    names = contains-add_keys-nil (placeholders template)

    sound : prompt uri template slots ≡ none → Accepted uri template slots
    sound h = elim (Option-cases (declare slots [])) [
      | inl blank ↦ absurd (ground arith)
      | inr (declared, e) ↦
          let (named, keys) = declare_sound slots [] declared e in
          let agree : compare_slots (add_keys (placeholders template) []) declared ≡ none =
            ground arith in
          record {
            uri_named = ground arith;
            template_written = ground arith;
            slots_named = named;
            same_names = λ n. ground (
              arith,
              keys,
              names n,
              contains-add_keys-nil slots n,
              compare_slots_sound _ declared agree n,
            );
          }
    ]

    complete : Accepted uri template slots → prompt uri template slots ≡ none
    complete ok = ground (
      arith,
      ok.uri_named,
      ok.template_written,
      declare_named slots [] ok.slots_named,
      compare_slots_accepts (add_keys (placeholders template) []) (add_keys slots [])
          (λ a. names a ∙ ok.same_names a ∙ sym (contains-add_keys-nil slots a)),
    )
