-- ===== src/Validate/Scan.antt =====
-- What the scan for placeholders finds, against the occurrences of `{name}` in a text.
use promptnet.Prelude.{
  ℕ, zero, suc, ◌≡◌, ◌↔◌, refl, sym, ap, subst, ◌∙◌, true, none, some, List, [], ◌∷◌, ◌++◌, Str,
  length, ◌≢◌, arith, ◌==◌, nat_eq, equal, equal_iff, equal_refl, Bool-cases, Option-cases, inl,
  inr, ◌⊎◌, ◌||◌,
}
use promptnet.Prelude.Keys.{contains}
use promptnet.Validate.Defs.{is_word, word_then_brace, match_at, matches_from, placeholders}

abbrev pub AllWord : Str → Type 0
AllWord [] = Unit
AllWord (c ∷ s) = (is_word c ≡ true) × AllWord s

-- `{name}` stands somewhere in the text, and the name is a word.
pub record Occurs (name text : Str) : Type 0 where
  pub before : Str
  pub after : Str
  pub splits : text ≡ before ++ (b'{' ∷ (name ++ (b'}' ∷ after)))
  pub word : AllWord name
  pub nonempty : name ≢ []

Occurs-cons : {name text : Str} (c : ℕ) → Occurs name text → Occurs name (c ∷ text)
Occurs-cons c o = record {
  before = c ∷ o.before;
  after = o.after;
  splits = ap (◌∷◌ c) o.splits;
  word = o.word;
  nonempty = o.nonempty;
}

record Reads (s w : Str) : Type 0 where
  behind : Str
  splits : s ≡ w ++ (b'}' ∷ behind)
  word : AllWord w

word_then_brace_sound : (s w : Str) → word_then_brace s ≡ some w → Reads s w
unfolding word_then_brace
word_then_brace_sound [] w h = cc
word_then_brace_sound (c ∷ s) w h = elim (Bool-cases (c == b'}')) [
  | inl close ↦
      let same : [] ≡ w = ground arith in
      record { behind = s; splits = ground arith; word = subst AllWord same (tt {0}) }
  | inr other ↦ elim (Option-cases (word_then_brace s)) [
    | inl nothing ↦ absurd (ground arith)
    | inr (v, e) ↦
        let r = word_then_brace_sound s v e in
        let longer : c ∷ v ≡ w = ground arith in
        record {
          behind = r.behind;
          splits = ground (arith, r.splits);
          word = subst AllWord longer (ground arith, r.word);
        }
  ]
]

word_then_brace_complete :
    (w rest : Str) → AllWord w → word_then_brace (w ++ (b'}' ∷ rest)) ≡ some w
unfolding word_then_brace
word_then_brace_complete [] rest h = refl
word_then_brace_complete (c ∷ w) rest h = ground (arith, word_then_brace_complete w rest h.1)

-- none of the next `k` bytes opens a placeholder
abbrev NoOpen : ℕ → Str → Type 0
NoOpen zero s = Unit
NoOpen (suc k) [] = Unit
NoOpen (suc k) (c ∷ s) = (c ≢ b'{') × NoOpen k s

NoOpen-word : (w rest : Str) → AllWord w → NoOpen (suc (length w)) (w ++ (b'}' ∷ rest))
NoOpen-word [] rest h = (omega arith, tt)
NoOpen-word (c ∷ w) rest h = (unfold is_word in ground arith, NoOpen-word w rest h.1)

match_at_sound : (s w : Str) → match_at s ≡ some w → Occurs w s
unfolding match_at
match_at_sound [] w h = cc
match_at_sound (c ∷ s) w h = elim (Option-cases (word_then_brace s)) [
  | inl nothing ↦ absurd (ground arith)
  | inr (v, e) ↦
      let r = word_then_brace_sound s w (ground arith) in
      record {
        before = [];
        after = r.behind;
        splits = ground (arith, r.splits);
        word = r.word;
        nonempty = λ empty. ground arith;
      }
]

match_at_complete :
    (w rest : Str) → AllWord w → w ≢ [] → match_at (b'{' ∷ (w ++ (b'}' ∷ rest))) ≡ some w
unfolding match_at
match_at_complete [] rest h ne = absurd (ne refl)
match_at_complete (c ∷ w) rest h ne = rw (word_then_brace_complete (c ∷ w) rest h)

match_at-NoOpen : (c : ℕ) (s w : Str) → match_at (c ∷ s) ≡ some w → NoOpen (suc (length w)) s
unfolding match_at
match_at-NoOpen c s w h = elim (Option-cases (word_then_brace s)) [
  | inl nothing ↦ absurd (ground arith)
  | inr (v, e) ↦
      let r = word_then_brace_sound s w (ground arith) in
      subst (NoOpen (suc (length w))) (sym r.splits) (NoOpen-word w r.behind r.word)
]

matches_from-eq :
    (c : ℕ) (s : Str)
    → ((match_at (c ∷ s) ≡ none) × (matches_from 0 (c ∷ s) ≡ matches_from 0 s))
      ⊎ ((w : Str) × (match_at (c ∷ s) ≡ some w)
          × (matches_from 0 (c ∷ s) ≡ w ∷ matches_from (suc (length w)) s))
unfolding matches_from
matches_from-eq c s = elim (Option-cases (match_at (c ∷ s))) [
  | inl nothing ↦ inl (nothing, ground arith)
  | inr (w, e) ↦ inr (w, e, ground arith)
]

matches_from-nil : (k : ℕ) → matches_from k [] ≡ []
unfolding matches_from
matches_from-nil k = refl

matches_from-suc : (k c : ℕ) (s : Str) → matches_from (suc k) (c ∷ s) ≡ matches_from k s
unfolding matches_from
matches_from-suc k c s = refl

contains-nil-ne : (n : Str) → ¬ (contains [] n ≡ true)
unfolding contains
contains-nil-ne n h = cc

contains-cons :
    (a : Str) (xs : List Str) (n : Str) → contains (a ∷ xs) n ≡ (equal a n || contains xs n)
unfolding contains
contains-cons a xs n = refl

module _ (n : Str) where
  matches_from_sound : (k : ℕ) (s : Str) → contains (matches_from k s) n ≡ true → Occurs n s
  matches_from_sound k [] h = absurd (contains-nil-ne n (rw matches_from-nil at h))
  matches_from_sound (suc k) (c ∷ s) h =
      Occurs-cons c (matches_from_sound k s (rw matches_from-suc at h))
  matches_from_sound zero (c ∷ s) h = elim (matches_from-eq c s) [
    | inl (nothing, step) ↦ Occurs-cons c (matches_from_sound zero s (rw step at h))
    | inr (w, e, step) ↦ elim (Bool-cases (equal w n)) [
      | inl same ↦ match_at_sound (c ∷ s) n (e ∙ ap some ((equal_iff w n).0 same))
      | inr other ↦
          let later : contains (matches_from (suc (length w)) s) n ≡ true =
            ground (arith, contains-cons w (matches_from (suc (length w)) s) n) in
          Occurs-cons c (matches_from_sound (suc (length w)) s later)
    ]
  ]

  -- what opens a placeholder at the front is read there
  first_match :
      (s after : Str)
      → AllWord n
      → n ≢ []
      → s ≡ n ++ (b'}' ∷ after)
      → contains (matches_from 0 (b'{' ∷ s)) n ≡ true
  first_match s after word ne e = elim (matches_from-eq b'{' s) [
    | inl (nothing, step) ↦
        absurd (
          ground
            (arith, ap (λ (r : Str). match_at (b'{' ∷ r)) e, match_at_complete n after word ne))
    | inr (w, found, step) ↦ ground (
      arith,
      ap (λ (r : Str). match_at (b'{' ∷ r)) e,
      match_at_complete n after word ne,
      contains-cons w (matches_from (suc (length w)) s) n,
      equal_refl n,
    )
  ]

  matches_from_complete :
      (k : ℕ) (s before after : Str)
      → NoOpen k s
      → AllWord n
      → n ≢ []
      → s ≡ before ++ (b'{' ∷ (n ++ (b'}' ∷ after)))
      → contains (matches_from k s) n ≡ true
  matches_from_complete k [] [] after no_open word ne e = cc
  matches_from_complete k [] (d ∷ before) after no_open word ne e = cc
  matches_from_complete (suc k) (c ∷ s) [] after no_open word ne e =
      absurd (no_open.0 (ground arith))
  matches_from_complete (suc k) (c ∷ s) (d ∷ before) after no_open word ne e =
      rw matches_from-suc (matches_from_complete k s before after no_open.1 word ne (ground arith))
  matches_from_complete zero (c ∷ s) [] after no_open word ne e =
      let opens : b'{' ≡ c = ground arith in
      subst (λ d. contains (matches_from 0 (d ∷ s)) n ≡ true) opens
        (first_match s after word ne (ground arith))
  matches_from_complete zero (c ∷ s) (d ∷ before) after no_open word ne e =
      elim (matches_from-eq c s) [
        | inl (nothing, step) ↦
            rw step (matches_from_complete zero s before after tt word ne (ground arith))
        | inr (w, found, step) ↦ ground (
          arith,
          contains-cons w (matches_from (suc (length w)) s) n,
          matches_from_complete (suc (length w)) s before after (match_at-NoOpen c s w found) word
              ne (ground arith),
        )
      ]

-- The placeholders of a template are exactly the words that stand between braces in it, wherever
-- the scan for them has stopped before.
pub placeholders-iff-Occurs :
    (template name : Str) → (contains (placeholders template) name ≡ true) ↔ Occurs name template
unfolding placeholders
placeholders-iff-Occurs template name = (
  matches_from_sound name 0 template,
  λ o. matches_from_complete name 0 template o.before o.after tt o.word o.nonempty o.splits,
)
