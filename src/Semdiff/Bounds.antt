-- ===== src/Semdiff/Bounds.antt =====
-- The numbers of a report are bounded by the lengths of the two files.
use promptnet.Prelude.{
  ℕ, zero, suc, ◌+◌, ◌*◌, ◌≤◌, ◌≡◌, ap, ◌∙◌, subst, Bool, true, false, Option, List, [], ◌∷◌, ◌++◌,
  Str, str_eq, nat_eq, length, length-append, arith,
}
use promptnet.Semdiff.Analyze
use promptnet.Semdiff.Analyze.{
  Outcome, ok, err, Window, Direction, Report, Memo, Embeds, next, delta_text, settle, expand_from,
  window_up, window_down, analyze_change, analyze_all, analyze,
}
use promptnet.Semdiff.Changes.{Change, changes}
use promptnet.Semdiff.Changes.Align.{Aligns, end, keep, hunk, changes-Aligns}
use promptnet.Semdiff.Float.{Float}

-- the ranges of a hunk lie in files of `m` and `n` lines
pub record Inside (m n : ℕ) (ch : Change) : Type 0 where
  pub old_start : ch.old_start ≤ m
  pub old_end : ch.old_end ≤ m
  pub new_start : ch.new_start ≤ n
  pub new_end : ch.new_end ≤ n

abbrev pub AllInside : ℕ → ℕ → List Change → Type 0
AllInside m n [] = Unit
AllInside m n (ch ∷ chs) = Inside m n ch × AllInside m n chs

-- an outcome that, if it is a value, has `Q`
abbrev Gives {ℓ} : {A : Type ℓ} → (A → Type 0) → Outcome A → Type 0
Gives Q (ok a) = Q a
Gives Q (err e) = Unit

Gives-ok {ℓ} : {A : Type ℓ} (Q : A → Type 0) (a : A) → Q a → Gives Q (ok a)
Gives-ok Q a q = q

module _ (fl : Float) where
  Gives-next {ℓ κ} :
      {A : Type ℓ} {B : Type κ} (x : Outcome A × Memo fl) (f : A → Embeds fl B) (Q : A → Type 0)
      (R : B → Type 0)
      → Gives Q x.0
      → ((a : A) → Q a → (s : Memo fl) → Gives R (f a s).0)
      → Gives R (next fl x f).0
  Gives-next (ok a, s) f Q R q k = k a q s
  Gives-next (err e, s) f Q R q k = tt

  abbrev pub AllWithin : ℕ → List (Window fl) → Type 0
  AllWithin b [] = Unit
  AllWithin b (w ∷ ws) = (w.radius ≤ b) × AllWithin b ws

  AllWithin-snoc :
      (b : ℕ) (ws : List (Window fl)) (w : Window fl)
      → AllWithin b ws
      → w.radius ≤ b
      → AllWithin b (ws ++ w ∷ [])
  AllWithin-snoc b [] w h le = (le, tt)
  AllWithin-snoc b (v ∷ ws) w h le = (h.0, AllWithin-snoc b ws w h.1 le)

  AllWithin-weaken : (b c : ℕ) (ws : List (Window fl)) → b ≤ c → AllWithin b ws → AllWithin c ws
  AllWithin-weaken b c [] le h = tt
  AllWithin-weaken b c (w ∷ ws) le h = (omega (arith, le, h.0), AllWithin-weaken b c ws le h.1)

  -- the hunk of a report and the windows of its two directions
  pub record InRange (m n : ℕ) (r : Report fl) : Type 0 where
    pub inside : Inside m n r.change
    pub up : AllWithin (4 * (m + n) + 2) r.up.curve
    pub down : AllWithin (4 * (m + n) + 2) r.down.curve

  abbrev pub AllInRange : ℕ → ℕ → List (Report fl) → Type 0
  AllInRange m n [] = Unit
  AllInRange m n (r ∷ rs) = InRange m n r × AllInRange m n rs

  module _ (embed : ℕ → Str → Option (List (List fl.Single))) where
    abbrev Short : ℕ → Direction fl → Type 0
    Short b d = AllWithin b d.curve

    abbrev AnyDelta : fl.Double → Type 0
    AnyDelta d = Unit

    Gives-any : (x : Outcome fl.Double) → Gives AnyDelta x
    Gives-any (ok a) = tt
    Gives-any (err e) = tt

    delta_text-Gives : (a b : Str) (s : Memo fl) → Gives AnyDelta (delta_text fl embed a b s).0
    delta_text-Gives a b s = Gives-any (delta_text fl embed a b s).0

    settle-Gives :
        (b : ℕ) (flat edge : Bool) (longer : List (Window fl)) (rest : Embeds fl (Direction fl))
        (s : Memo fl)
        → AllWithin b longer
        → Gives (Short b) (rest s).0
        → Gives (Short b) (settle fl embed flat edge longer rest s).0
    unfolding settle
    settle-Gives b true edge longer rest s h k = h
    settle-Gives b false true longer rest s h k = h
    settle-Gives b false false longer rest s h k = k

    expand_from-Gives :
        (b fuel r : ℕ) (prev : fl.Double) (curve : List (Window fl)) (w : ℕ → Str × Str × Bool)
        (s : Memo fl)
        → AllWithin b curve
        → r + (fuel + fuel) ≤ b + 2
        → Gives (Short b) (expand_from fl embed fuel r prev curve w s).0
    unfolding expand_from
    expand_from-Gives b zero r prev curve w s h le = unfold Analyze.diverge in tt
    expand_from-Gives b (suc fuel) r prev curve w s h le =
        Gives-next _ _ AnyDelta (Short b) (delta_text-Gives (w r).0 (w r).1 s) λ delta _ s₁.
          let longer = curve ++ record { radius = r; delta = delta } ∷ [] in
          settle-Gives b (fl.lt (fl.abs (fl.sub delta prev)) fl.flatten_eps) (w r).2 longer
            (expand_from fl embed fuel (r + 2) delta longer w) s₁
            (AllWithin-snoc b curve (record { radius = r; delta = delta }) h (omega (arith, le)))
            (expand_from-Gives b fuel (r + 2) delta longer w s₁
              (AllWithin-snoc b curve (record { radius = r; delta = delta }) h (omega (arith, le)))
              (omega (arith, le)))

Aligns-AllInside :
    (m n i j : ℕ) (old new : List Str) (out : List Change) (k : ℕ)
    → Aligns i j old new out k
    → i + length old ≤ m
    → j + length new ≤ n
    → AllInside m n out
Aligns-AllInside m n i j [] [] [] _ end h g = tt
Aligns-AllInside m n i j (x ∷ old) (_ ∷ new) out _ (keep {k} a) h g =
    Aligns-AllInside m n (i + 1) (j + 1) old new out k a (omega (arith, h)) (omega (arith, g))
Aligns-AllInside m n i j old' new' (c ∷ out) k (hunk {old} {new} gone come pos os oe ns ne eo en a)
      h g =
    let ho = ap length eo ∙ length-append gone old in
    let hn = ap length en ∙ length-append come new in
    (
      record {
        old_start = omega (arith, os, h);
        old_end = omega (arith, oe, h, ho);
        new_start = omega (arith, ns, g);
        new_end = omega (arith, ne, g, hn);
      },
      Aligns-AllInside m n c.old_end c.new_end old new out k a (omega (arith, oe, h, ho))
          (omega (arith, ne, g, hn)),
    )

changes-AllInside : (old new : List Str) → AllInside (length old) (length new) (changes old new)
changes-AllInside old new =
    Aligns-AllInside (length old) (length new) 0 0 old new _ _ (changes-Aligns old new)
      (omega arith) (omega arith)

module _ (fl : Float) (embed : ℕ → Str → Option (List (List fl.Single))) (old new : List Str)
    (pf : fl.Double) where
  analyze_change-Gives :
      (ch : Change) (s : Memo fl)
      → Inside (length old) (length new) ch
      → Gives (InRange fl (length old) (length new)) (analyze_change fl embed old new pf ch s).0
  unfolding analyze_change
  analyze_change-Gives ch s i =
      let b = 4 * (length old + length new) + 2 in
      let fuel = suc (length old + length new + (ch.old_start + ch.new_start)) in
      let whole = InRange fl (length old) (length new) in
      Gives-next fl _ _ (AnyDelta fl embed) whole (delta_text-Gives fl embed _ _ s) λ s2 _ s₁.
        Gives-next fl _ _ (Short fl embed b) whole
          (expand_from-Gives fl embed b fuel 2 s2 [] (window_up fl embed old new ch) s₁ tt
            (omega (arith, i.old_start, i.new_start)))
          λ up u s₂.
            Gives-next fl _ _ (Short fl embed b) whole
              (expand_from-Gives fl embed b fuel 2 s2 [] (window_down fl embed old new ch) s₂ tt
                (omega (arith, i.old_start, i.new_start)))
              λ down d s₃. Gives-ok whole _ (record { inside = i; up = u; down = d })

  AllInRange-snoc :
      (m n : ℕ) (rs : List (Report fl)) (r : Report fl)
      → AllInRange fl m n rs
      → InRange fl m n r
      → AllInRange fl m n (rs ++ r ∷ [])
  AllInRange-snoc m n [] r h i = (i, tt)
  AllInRange-snoc m n (x ∷ rs) r h i = (h.0, AllInRange-snoc m n rs r h.1 i)

  analyze_all-Gives :
      (chs : List Change) (out : List (Report fl)) (s : Memo fl)
      → AllInside (length old) (length new) chs
      → AllInRange fl (length old) (length new) out
      → Gives
          (AllInRange fl (length old) (length new))
          (analyze_all fl embed old new pf chs out s).0
  unfolding analyze_all
  analyze_all-Gives [] out s i h = h
  analyze_all-Gives (ch ∷ chs) out s i h =
      Gives-next fl _ _ (InRange fl (length old) (length new))
        (AllInRange fl (length old) (length new)) (analyze_change-Gives ch s i.0)
        λ r q s₁.
          analyze_all-Gives chs (out ++ r ∷ []) s₁ i.1
            (AllInRange-snoc (length old) (length new) out r h q)

  pub analyze-AllInRange :
      (rs : List (Report fl))
      → (analyze fl embed old new pf).0 ≡ ok rs
      → AllInRange fl (length old) (length new) rs
  unfolding analyze
  analyze-AllInRange rs e =
      subst (Gives (AllInRange fl (length old) (length new))) e
        (analyze_all-Gives (changes old new) [] _ (changes-AllInside old new) tt)
