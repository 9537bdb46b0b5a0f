-- ===== src/Semdiff/Changes/Align.antt =====
-- The hunks align the two files, and keep as many lines as can be kept.
use promptnet.Prelude.{
  ℕ, suc, ◌+◌, ◌≤◌, ◌<◌, ◌≡◌, max, refl, sym, ap, ◌∙◌, subst, true, false, Option, none, some, List,
  [], ◌∷◌, ◌++◌, append_assoc, append-nil, Str, ◌==◌, str_eq, equal, equal_iff, if◌then◌else◌, leb,
  Bool-cases, ◌⊎◌, inl, inr, length, length-append, drop, arith,
}
use promptnet.Semdiff.Changes.Table.{lcs, lcs-cons, lcs-nil, lcs-nil_left, cell-lcs}
use promptnet.Semdiff.Changes.{Change, close, opened, trailing, walk, changes, fill, cell}

-- The hunks `out` lead from the lines `old`, which begin at line `i`, to the lines `new`, which
-- begin at line `j`; outside the hunks the files hold the same `k` lines in the same order.
pub data Aligns : ℕ → ℕ → List Str → List Str → List Change → ℕ → Type 0 where
  end : {i j : ℕ} → Aligns i j [] [] [] 0
  keep :
      {i j k : ℕ} {x : Str} {old new : List Str} {out : List Change}
      → Aligns (i + 1) (j + 1) old new out k
      → Aligns i j (x ∷ old) (x ∷ new) out (suc k)
  hunk :
      {i j k : ℕ} {old new old' new' : List Str} {out : List Change} {c : Change}
      (gone come : List Str)
      → 0 < length gone + length come
      → c.old_start ≡ i
      → c.old_end ≡ i + length gone
      → c.new_start ≡ j
      → c.new_end ≡ j + length come
      → old' ≡ gone ++ old
      → new' ≡ come ++ new
      → Aligns c.old_end c.new_end old new out k
      → Aligns i j old' new' (c ∷ out) k

-- what the walk has open, and the lines that it has passed since
abbrev Opened : Option (ℕ × ℕ) → ℕ → ℕ → ℕ → ℕ → List Str → List Str → Type 0
Opened none a b i j gone come = (a ≡ i) × (b ≡ j) × (gone ≡ []) × (come ≡ [])
Opened (some (s, t)) a b i j gone come =
    (s ≡ a)
    × (t ≡ b)
    × (i ≡ a + length gone)
    × (j ≡ b + length come)
    × (0 < length gone + length come)

close-Aligns :
    (start : Option (ℕ × ℕ)) (a b i j k : ℕ) (gone come old new : List Str) (out : List Change)
    → Opened start a b i j gone come
    → Aligns i j old new out k
    → Aligns a b (gone ++ old) (come ++ new) (close start i j out) k
close-Aligns none a b i j k gone come old new out o h = rw (o.0, o.1, o.2, o.3) h
close-Aligns (some (s, t)) a b i j k gone come old new out o h =
    hunk gone come o.4 o.0 o.2 o.1 o.3 refl refl h

trailing_none : (n m i j : ℕ) → n ≡ i → m ≡ j → trailing n m i j ≡ []
unfolding trailing
trailing_none n m i j h k = ground arith

trailing_some :
    (n m i j : ℕ)
    → (i < n) ⊎ (j < m)
    → trailing n m i j ≡ record { old_start = i; old_end = n; new_start = j; new_end = m } ∷ []
unfolding trailing
trailing_some n m i j (inl h) = ground arith
trailing_some n m i j (inr h) = ground arith

trailing-hunk :
    (n m i j : ℕ) (old new : List Str)
    → n ≡ i + length old
    → m ≡ j + length new
    → (i < n) ⊎ (j < m)
    → Aligns i j old new (trailing n m i j) 0
trailing-hunk n m i j old new en em h =
    rw (trailing_some n m i j h)
      (hunk old new (omega arith) refl en refl em (sym (append-nil old)) (sym (append-nil new)) end)

trailing-Aligns :
    (n m i j : ℕ) (old new : List Str)
    → n ≡ i + length old
    → m ≡ j + length new
    → Aligns i j old new (trailing n m i j) 0
trailing-Aligns n m i j [] [] en em = rw (trailing_none n m i j (omega arith) (omega arith)) end
trailing-Aligns n m i j [] (y ∷ new) en em =
    trailing-hunk n m i j [] (y ∷ new) en em (inr (omega arith))
trailing-Aligns n m i j (x ∷ old) new en em =
    trailing-hunk n m i j (x ∷ old) new en em (inl (omega arith))

Opened-old :
    (start : Option (ℕ × ℕ)) (a b i j : ℕ) (gone come : List Str) (x : Str)
    → Opened start a b i j gone come
    → Opened (some (opened start i j)) a b (i + 1) j (gone ++ x ∷ []) come
Opened-old none a b i j gone come x o =
    rw (o.2, o.3) (sym o.0, sym o.1, omega arith, omega arith, omega arith)
Opened-old (some (s, t)) a b i j gone come x o =
    rw length-append (o.0, o.1, omega arith, omega arith, omega arith)

Opened-new :
    (start : Option (ℕ × ℕ)) (a b i j : ℕ) (gone come : List Str) (y : Str)
    → Opened start a b i j gone come
    → Opened (some (opened start i j)) a b i (j + 1) gone (come ++ y ∷ [])
Opened-new none a b i j gone come y o =
    rw (o.2, o.3) (sym o.0, sym o.1, omega arith, omega arith, omega arith)
Opened-new (some (s, t)) a b i j gone come y o =
    rw length-append (o.0, o.1, omega arith, omega arith, omega arith)

leb→le : (a b : ℕ) → leb a b ≡ true → a ≤ b
leb→le a b h = ground arith

leb→gt : (a b : ℕ) → leb a b ≡ false → b < a
leb→gt a b h = ground arith

module _ (dp : ℕ → ℕ → ℕ) where
  -- the table, as seen from line `i` and line `j`
  abbrev Reads : ℕ → ℕ → List Str → List Str → Type 0
  Reads i j old new = (p q : ℕ) → dp (i + p) (j + q) ≡ lcs (drop p old) (drop q new)

  Reads-old :
      (i j : ℕ) (x : Str) (old new : List Str) → Reads i j (x ∷ old) new → Reads (i + 1) j old new
  Reads-old i j x old new r p q = ap (λ t. dp t (j + q)) (omega arith) ∙ r (suc p) q

  Reads-new :
      (i j : ℕ) (y : Str) (old new : List Str) → Reads i j old (y ∷ new) → Reads i (j + 1) old new
  Reads-new i j y old new r p q = ap (dp (i + p)) (omega arith) ∙ r p (suc q)

  Reads-here : (i j : ℕ) (old new : List Str) → Reads i j old new → dp i j ≡ lcs old new
  Reads-here i j old new r = ap (λ t. dp t j) (omega arith) ∙ ap (dp (i + 0)) (omega arith) ∙ r 0 0

  module _ (n m : ℕ) where
    walk-cons :
        (start : Option (ℕ × ℕ)) (i j : ℕ) (x y : Str) (old new : List Str)
        → walk dp n m start i j (x ∷ old) (y ∷ new) ≡ (
            if x == y
            then close start i j (walk dp n m none (i + 1) (j + 1) old new)
            else if leb (dp i (j + 1)) (dp (i + 1) j)
            then walk dp n m (some (opened start i j)) (i + 1) j old (y ∷ new)
            else walk dp n m (some (opened start i j)) i (j + 1) (x ∷ old) new)
    unfolding walk
    walk-cons start i j x y old new = refl

    walk_end :
        (start : Option (ℕ × ℕ)) (i j : ℕ) (old new : List Str)
        → (old ≡ []) ⊎ (new ≡ [])
        → walk dp n m start i j old new ≡ close start i j (trailing n m i j)
    unfolding walk
    walk_end start i j [] new h = refl
    walk_end start i j (x ∷ old) [] h = refl
    walk_end start i j (x ∷ old) (y ∷ new) (inl h) = absurd cc
    walk_end start i j (x ∷ old) (y ∷ new) (inr h) = absurd cc

    walk-Aligns :
        (start : Option (ℕ × ℕ)) (a b i j : ℕ) (gone come old new : List Str)
        → Reads i j old new
        → n ≡ i + length old
        → m ≡ j + length new
        → Opened start a b i j gone come
        → Aligns a b (gone ++ old) (come ++ new) (walk dp n m start i j old new) (lcs old new)
    walk-Aligns start a b i j gone come [] new r en em o =
        rw (lcs-nil_left, walk_end start i j [] new (inl refl))
          (close-Aligns start a b i j 0 gone come [] new _ o (trailing-Aligns n m i j [] new en em))
    walk-Aligns start a b i j gone come (x ∷ old) [] r en em o =
        rw (lcs-nil, walk_end start i j (x ∷ old) [] (inr refl))
          (close-Aligns start a b i j 0 gone come (x ∷ old) [] _ o
            (trailing-Aligns n m i j (x ∷ old) [] en em))
    walk-Aligns start a b i j gone come (x ∷ old) (y ∷ new) r en em o =
        elim (Bool-cases (equal x y)) [
          | inl same ↦
              rw (walk-cons, lcs-cons, same)
                (close-Aligns start a b i j (suc (lcs old new)) gone come (x ∷ old) (y ∷ new) _ o (
                  subst
                    (λ z.
                      Aligns i j (x ∷ old) (z ∷ new) (walk dp n m none (i + 1) (j + 1) old new)
                        (suc (lcs old new)))
                    ((equal_iff x y).0 same)
                    (keep (
                      walk-Aligns none (i + 1) (j + 1) (i + 1) (j + 1) [] [] old new
                        (Reads-new (i + 1) j y old new (Reads-old i j x old (y ∷ new) r))
                        (omega arith) (omega arith) (refl, refl, refl, refl)))))
          | inr other ↦
              let left = Reads-here (i + 1) j old (y ∷ new) (Reads-old i j x old (y ∷ new) r) in
              let right = Reads-here i (j + 1) (x ∷ old) new (Reads-new i j y (x ∷ old) new r) in
              elim (Bool-cases (leb (dp i (j + 1)) (dp (i + 1) j))) [
                | inl le ↦
                    let longer : lcs old (y ∷ new) ≡ max (lcs old (y ∷ new)) (lcs (x ∷ old) new) =
                      omega (arith, leb→le _ _ le) in
                    rw (walk-cons, lcs-cons, other, le)
                      (subst (Aligns a b (gone ++ x ∷ old) (come ++ y ∷ new) _) longer (
                        rw append_assoc at (
                          walk-Aligns (some (opened start i j)) a b (i + 1) j (gone ++ x ∷ []) come
                            old (y ∷ new) (Reads-old i j x old (y ∷ new) r) (omega arith) em
                            (Opened-old start a b i j gone come x o))))
                | inr gt ↦
                    let longer : lcs (x ∷ old) new ≡ max (lcs old (y ∷ new)) (lcs (x ∷ old) new) =
                      omega (arith, leb→gt _ _ gt) in
                    rw (walk-cons, lcs-cons, other, gt)
                      (subst (Aligns a b (gone ++ x ∷ old) (come ++ y ∷ new) _) longer (
                        rw append_assoc at (
                          walk-Aligns (some (opened start i j)) a b i (j + 1) gone (come ++ y ∷ [])
                            (x ∷ old) new (Reads-new i j y (x ∷ old) new r) en (omega arith)
                            (Opened-new start a b i j gone come y o))))
              ]
        ]

-- `changes` aligns the two files: its hunks come in order, each replaces the lines that it names
-- and at least one, and the lines outside are the same on both sides, as many as the longest common
-- subsequence has.
pub changes-Aligns : (old new : List Str) → Aligns 0 0 old new (changes old new) (lcs old new)
unfolding changes
changes-Aligns old new =
    walk-Aligns (cell (fill old new)) (length old) (length new) none 0 0 0 0 [] [] old new
      (λ p q.
        ap (λ t. cell (fill old new) t (0 + q)) (omega arith)
        ∙ ap (cell (fill old new) p) (omega arith)
        ∙ cell-lcs old new p q)
      (omega arith) (omega arith) (refl, refl, refl, refl)
