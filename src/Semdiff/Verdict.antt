-- ===== src/Semdiff/Verdict.antt =====
-- `Worst` and `Kind`.
use promptnet.Prelude.{
  ℕ, ap, ◌≤◌, ◌≡◌, refl, Option, none, some, List, [], ◌∷◌, arith, if◌then◌else◌, Bool-cases, ltb,
  inl, inr, ◌==◌, nat_eq, ◌⊎◌,
}
use promptnet.Semdiff.Analyze.{Class, structural, localized_tweak, minor_edit}
use promptnet.Semdiff.Changes.{Change}

pub data HunkKind : Type 0 where
  inserts deletes replaces : HunkKind

-- `rank`, which has 0 for the empty string
unfoldable pub rank : Option Class → ℕ
rank none = 0
rank (some minor_edit) = 1
rank (some localized_tweak) = 2
rank (some structural) = 3

-- the loop of `Worst` over the classes of the reports
unfoldable pub worst_from : Option Class → List Class → Option Class
unfolding rank
worst_from worst [] = worst
worst_from worst (c ∷ cs) =
    worst_from (if ltb (rank worst) (rank (some c)) then some c else worst) cs

unfoldable pub worst : List Class → Option Class
unfolding worst_from
worst cs = worst_from none cs

unfoldable pub kind : Change → HunkKind
kind c =
    if c.old_start == c.old_end
    then inserts
    else if c.new_start == c.new_end
    then deletes
    else replaces

-- the classes of a list are at most `v`
abbrev pub Bounded : Option Class → List Class → Type 0
Bounded v [] = Unit
Bounded v (c ∷ cs) = (rank (some c) ≤ rank v) × Bounded v cs

-- `v` is one of the classes of a list
abbrev pub Among : Option Class → List Class → Type 0
Among v [] = v ≡ none
Among v (c ∷ cs) = (v ≡ some c) ⊎ Among v cs

rank-positive : (c : Class) → 1 ≤ rank (some c)
unfolding rank
rank-positive structural = omega arith
rank-positive localized_tweak = omega arith
rank-positive minor_edit = omega arith

pick : Option Class → Class → Option Class
pick w c = if ltb (rank w) (rank (some c)) then some c else w

worst_from-Bounded :
    (w : Option Class) (cs : List Class)
    → (rank w ≤ rank (worst_from w cs)) × Bounded (worst_from w cs) cs
unfolding worst_from
worst_from-Bounded w [] = (omega arith, tt)
worst_from-Bounded w (c ∷ cs) =
    let step = worst_from-Bounded (if ltb (rank w) (rank (some c)) then some c else w) cs in
    (ground (arith, step.0), (ground (arith, step.0), step.1))

worst_from-Among :
    (w : Option Class) (cs : List Class) → (worst_from w cs ≡ w) ⊎ Among (worst_from w cs) cs
unfolding worst_from
worst_from-Among w [] = inl refl
worst_from-Among w (c ∷ cs) =
    let step = worst_from-Among (if ltb (rank w) (rank (some c)) then some c else w) cs in
    elim (Bool-cases (ltb (rank w) (rank (some c)))) [
      | inl gt ↦ elim step [ inl e ↦ inr (inl (ground arith)) | inr e ↦ inr (inr e) ]
      | inr le ↦ elim step [ inl e ↦ inl (ground arith) | inr e ↦ inr (inr e) ]
    ]

Among-none : (v : Option Class) (cs : List Class) → v ≡ none → Among v cs
Among-none v [] e = e
Among-none v (c ∷ cs) e = inr (Among-none v cs e)

none_reported : (v : Option Class) (cs : List Class) → v ≡ none → Bounded v cs → cs ≡ []
unfolding rank
none_reported v [] e b = refl
none_reported v (c ∷ cs) e b = absurd (omega (arith, rank-positive c, b.0, ap rank e))

-- `Worst` is one of the classes that were reported, none exactly if none was, and no class that was
-- reported ranks above it.
pub worst-IsGreatest :
    (cs : List Class) → Among (worst cs) cs × (worst cs ≡ none → cs ≡ []) × Bounded (worst cs) cs
unfolding worst
worst-IsGreatest cs =
    let bounded = (worst_from-Bounded none cs).1 in
    (
      elim (worst_from-Among none cs) [ inl e ↦ Among-none (worst_from none cs) cs e | inr a ↦ a ],
      (λ e. none_reported (worst_from none cs) cs e bounded),
      bounded,
    )
