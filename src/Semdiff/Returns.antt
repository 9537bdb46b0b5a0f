-- ===== src/Semdiff/Returns.antt =====
-- The loops of `Analyze` end, whatever the embedder and the floating-point numbers do.
use promptnet.Prelude.{
  ℕ, zero, suc, ◌+◌, ◌-◌, ◌≤◌, ◌≡◌, refl, sym, ap, ◌∙◌, subst, min, Bool, true, false, Option, none,
  some, List, [], ◌∷◌, ◌++◌, append_assoc, append-nil, map, Str, ◌==◌, str_eq, nat_eq, length,
  arith, Bool-cases, inl, inr,
}
use promptnet.Prelude.Assoc
use promptnet.Semdiff.Analyze.{
  Outcome, ok, err, failed, panicked, diverged, Window, Direction, Report, Memo, Embeds, next,
  embed_one, ask, cached, delta_text, settle, expand_from, window_up, window_down, analyze_change,
  analyze_all, analyze, store_first,
}
use promptnet.Semdiff.Changes.{Change, changes}
use promptnet.Semdiff.Float.{Float}

-- a value with `Q`, an error that `F` accounts for, or a panic that `P` accounts for
unfoldable pub Returns {ℓ} : Type 0 → Type 0 → {A : Type ℓ} → (A → Type 0) → Outcome A → Type 0
Returns F P Q (ok a) = Q a
Returns F P Q (err diverged) = ⊥
Returns F P Q (err failed) = F
Returns F P Q (err panicked) = P

Returns-ok {ℓ} : (F P : Type 0) {A : Type ℓ} (Q : A → Type 0) (a : A) → Q a → Returns F P Q (ok a)
unfolding Returns
Returns-ok F P Q a q = q

module _ (fl : Float) (F P : Type 0) where
  Returns-next {ℓ κ} :
      {A : Type ℓ} {B : Type κ} (x : Outcome A × Memo fl) (f : A → Embeds fl B) (Q : A → Type 0)
      (R : B → Type 0)
      → Returns F P Q x.0
      → ((a : A) → Q a → (s : Memo fl) → Returns F P R (f a s).0)
      → Returns F P R (next fl x f).0
  unfolding Returns
  Returns-next (ok a, s) f Q R q k = k a q s
  Returns-next (err failed, s) f Q R q k = q
  Returns-next (err panicked, s) f Q R q k = q
  Returns-next (err diverged, s) f Q R q k = absurd q

abbrev Any {ℓ} : {A : Type ℓ} → A → Type 0
Any a = Unit

module _ (fl : Float) (embed : ℕ → Str → Option (List (List fl.Single))) where
  -- a call of the embedder that is an error, and one that returns no vector
  abbrev pub Refuses : Type 0
  Refuses = (n : ℕ) × (t : Str) × (embed n t ≡ none)

  abbrev pub Empties : Type 0
  Empties = (n : ℕ) × (t : Str) × (embed n t ≡ some [])

  ask-Returns :
      (t : Str) (s : Memo fl) (o : Option (List (List fl.Single)))
      → embed s.calls t ≡ o
      → Returns Refuses Empties Any (ask fl embed t s o).0
  unfolding ask store_first Returns
  ask-Returns t s none e = (s.calls, t, e)
  ask-Returns t s (some []) e = (s.calls, t, e)
  ask-Returns t s (some (v ∷ vs)) e = tt

  cached-Returns :
      (t : Str) (s : Memo fl) (o : Option (List fl.Single))
      → Returns Refuses Empties Any (cached fl embed t s o).0
  unfolding cached Returns
  cached-Returns t s (some v) = tt
  cached-Returns t s none = ask-Returns t s (embed s.calls t) refl

  embed_one-Returns :
      (t : Str) (s : Memo fl) → Returns Refuses Empties Any (embed_one fl embed t s).0
  unfolding embed_one
  embed_one-Returns t s = cached-Returns t s (Assoc.get t s.cache)

  delta_text-Returns :
      (a b : Str) (s : Memo fl) → Returns Refuses Empties Any (delta_text fl embed a b s).0
  unfolding delta_text Returns
  delta_text-Returns a b s = elim (Bool-cases (a == b)) [
    | inl e ↦ rw e (tt)
    | inr e ↦ rw e (
        Returns-next fl Refuses Empties (embed_one fl embed a s) _ Any Any (embed_one-Returns a s)
          λ va _ s₁.
            Returns-next fl Refuses Empties (embed_one fl embed b s₁) _ Any Any
              (embed_one-Returns b s₁) λ vb _ s₂. tt)
  ]

  settle-Returns :
      (flat edge : Bool) (longer : List (Window fl)) (rest : Embeds fl (Direction fl)) (s : Memo fl)
      → (edge ≡ false → Returns Refuses Empties Any (rest s).0)
      → Returns Refuses Empties Any (settle fl embed flat edge longer rest s).0
  unfolding settle Returns
  settle-Returns true edge longer rest s h = tt
  settle-Returns false true longer rest s h = tt
  settle-Returns false false longer rest s h = h refl

  -- The loop ends where every window from `bound` on is at the boundary, and the fuel takes `r` there.
  expand_from-Returns :
      (bound fuel r : ℕ) (prev : fl.Double) (curve : List (Window fl)) (w : ℕ → Str × Str × Bool)
      (s : Memo fl)
      → ((i : ℕ) → bound ≤ i → (w i).2 ≡ true)
      → bound ≤ r + (fuel + fuel)
      → Returns Refuses Empties Any (expand_from fl embed (suc fuel) r prev curve w s).0
  unfolding expand_from
  expand_from-Returns bound zero r prev curve w s edge reach =
      Returns-next fl Refuses Empties _ _ Any Any (delta_text-Returns (w r).0 (w r).1 s)
        λ delta _ s₁.
          let longer = curve ++ record { radius = r; delta = delta } ∷ [] in
          settle-Returns (fl.lt (fl.abs (fl.sub delta prev)) fl.flatten_eps) (w r).2 longer
            (expand_from fl embed 0 (r + 2) delta longer w) s₁
            λ off. absurd (ground (arith, off, edge r (omega arith)))
  expand_from-Returns bound (suc fuel) r prev curve w s edge reach =
      Returns-next fl Refuses Empties _ _ Any Any (delta_text-Returns (w r).0 (w r).1 s)
        λ delta _ s₁.
          let longer = curve ++ record { radius = r; delta = delta } ∷ [] in
          settle-Returns (fl.lt (fl.abs (fl.sub delta prev)) fl.flatten_eps) (w r).2 longer
            (expand_from fl embed (suc fuel) (r + 2) delta longer w) s₁
            λ off. expand_from-Returns bound fuel (r + 2) delta longer w s₁ edge (omega arith)

  module _ (old new : List Str) (ch : Change) where
    up_edge : (i : ℕ) → ch.old_start + ch.new_start ≤ i → (window_up fl embed old new ch i).2 ≡ true
    unfolding window_up
    up_edge i le =
        let o : ch.old_start - i ≡ 0 = omega arith in
        let n : ch.new_start - i ≡ 0 = omega arith in ground (arith, o, n)

    down_edge : (i : ℕ) → length old + length new ≤ i → (window_down fl embed old new ch i).2 ≡ true
    unfolding window_down
    down_edge i le =
        let o : min (length old) (ch.old_end + i) ≡ length old = omega arith in
        let n : min (length new) (ch.new_end + i) ≡ length new = omega arith in ground (arith, o, n)

  analyze_change-Returns :
      (old new : List Str) (pf : fl.Double) (ch : Change) (s : Memo fl)
      → Returns Refuses Empties (λ r. r.change ≡ ch) (analyze_change fl embed old new pf ch s).0
  unfolding analyze_change
  analyze_change-Returns old new pf ch s =
      let fuel = length old + length new + (ch.old_start + ch.new_start) in
      Returns-next fl Refuses Empties _ _ Any (λ r. r.change ≡ ch) (delta_text-Returns _ _ s)
        λ s2 _ s₁.
          Returns-next fl Refuses Empties _ _ Any (λ r. r.change ≡ ch)
            (expand_from-Returns (ch.old_start + ch.new_start) fuel 2 s2 []
              (window_up fl embed old new ch) s₁ (up_edge old new ch) (omega arith))
            λ up _ s₂.
              Returns-next fl Refuses Empties _ _ Any (λ r. r.change ≡ ch)
                (expand_from-Returns (length old + length new) fuel 2 s2 []
                  (window_down fl embed old new ch) s₂ (down_edge old new ch) (omega arith))
                λ down _ s₃. Returns-ok Refuses Empties (λ r. r.change ≡ ch) _ refl

  abbrev of : List (Report fl) → List Change
  of rs = map (λ (r : Report fl). r.change) rs

  of-snoc : (rs : List (Report fl)) (r : Report fl) → of (rs ++ r ∷ []) ≡ of rs ++ r.change ∷ []
  of-snoc [] r = refl
  of-snoc (x ∷ rs) r = ap (λ l. x.change ∷ l) (of-snoc rs r)

  analyze_all-Returns :
      (old new : List Str) (pf : fl.Double) (chs : List Change) (out : List (Report fl))
      (s : Memo fl)
      → Returns Refuses Empties
          (λ rs. of rs ≡ of out ++ chs)
          (analyze_all fl embed old new pf chs out s).0
  unfolding analyze_all
  analyze_all-Returns old new pf [] out s =
      Returns-ok Refuses Empties (λ rs. of rs ≡ of out ++ []) out (sym (append-nil (of out)))
  analyze_all-Returns old new pf (ch ∷ chs) out s =
      Returns-next fl Refuses Empties _ _ (λ r. r.change ≡ ch) (λ rs. of rs ≡ of out ++ ch ∷ chs)
        (analyze_change-Returns old new pf ch s)
        λ r e s₁.
          subst
            (λ l.
              Returns Refuses Empties (λ rs. of rs ≡ l)
                (analyze_all fl embed old new pf chs (out ++ r ∷ []) s₁).0)
            (ap (λ l. l ++ chs) (of-snoc out r ∙ ap (λ c. of out ++ c ∷ []) e)
              ∙ append_assoc (of out) (ch ∷ []) chs)
            (analyze_all-Returns old new pf chs (out ++ r ∷ []) s₁)

  -- `Analyze` never loops, whatever the embedder returns and whatever the floating-point operations
  -- compute. It ends in one of three ways: with one report for each hunk of `changes`, in their
  -- order; with the error of a call of the embedder that failed; or with the panic of `vs[0]`, and
  -- then a call of the embedder has returned no vector.
  pub analyze-Returns :
      (old new : List Str) (pf : fl.Double)
      → Returns Refuses Empties
          (λ rs. map (λ (r : Report fl). r.change) rs ≡ changes old new)
          (analyze fl embed old new pf).0
  unfolding analyze
  analyze-Returns old new pf = analyze_all-Returns old new pf (changes old new) [] _
