-- ===== src/Semdiff/Analyze.antt =====
-- `Analyze` and what it calls, over an embedder and the floating-point numbers. The vectors cached
-- so far and the number of calls of the embedder are passed on.
use promptnet.Prelude.{
  ℕ, zero, suc, ◌+◌, ◌-◌, min, Bool, true, false, ◌&&◌, ◌||◌, not, Option, none, some, List, [],
  ◌∷◌, ◌++◌, Str, ◌==◌, str_eq, nat_eq, if◌then◌else◌, length, take, drop, codes,
}
use promptnet.Prelude.Assoc
use promptnet.Prelude.Text.{join}
use promptnet.Semdiff.Changes.{Change, changes}
use promptnet.Semdiff.Float.{Float}

-- `failed` is an error of the embedder and `panicked` a read behind the end of its vectors;
-- `diverged` marks a loop that has used up its fuel
pub data EmbedError : Type 0 where
  failed panicked diverged : EmbedError

pub data Outcome {ℓ} (A : Type ℓ) : Type ℓ where
  ok : A → Outcome A
  err : EmbedError → Outcome A

pub data Class : Type 0 where
  structural localized_tweak minor_edit : Class

-- old[a:b]
abbrev pub slice : List Str → ℕ → ℕ → List Str
slice l a b = take (b - a) (drop a l)

abbrev pub lines : List Str → Str
lines l = join l (codes "\n")

module _ (fl : Float) where
  open fl use {Double, Single}

  pub record Window : Type 0 where
    pub radius : ℕ
    pub delta : Double

  pub record Direction : Type 0 where
    pub curve : List Window
    pub stopped_at_boundary : Bool

  pub record Report : Type 0 where
    pub change : Change
    pub signal2 : Double
    pub up : Direction
    pub down : Direction
    pub class : Class

  pub record Memo : Type 0 where
    pub cache : List (Str × List Single)
    pub calls : ℕ

  abbrev pub Embeds {ℓ} : Type ℓ → Type ℓ
  Embeds A = Memo → Outcome A × Memo

  abbrev pub next {ℓ κ} :
      {A : Type ℓ} {B : Type κ} → Outcome A × Memo → (A → Embeds B) → Outcome B × Memo
  next (ok a, m) f = f a m
  next (err e, m) f = (err e, m)

  infixl 5 ◌>>=◌
  abbrev pub ◌>>=◌ {ℓ κ} : {A : Type ℓ} {B : Type κ} → Embeds A → (A → Embeds B) → Embeds B
  ◌>>=◌ m f s = next (m s) f

  abbrev pub pure {ℓ} : {A : Type ℓ} → A → Embeds A
  pure a m = (ok a, m)

  -- the sums of `cosine`, over vectors of one length
  pub record Sums : Type 0 where
    pub dot : Double
    pub na : Double
    pub nb : Double

  unfoldable pub sums : Sums → List Single → List Single → Sums
  sums s [] b = s
  sums s (x ∷ a) [] = s
  sums s (x ∷ a) (y ∷ b) =
      sums
        (record {
          dot = fl.add s.dot (fl.mul (fl.widen x) (fl.widen y));
          na = fl.add s.na (fl.mul (fl.widen x) (fl.widen x));
          nb = fl.add s.nb (fl.mul (fl.widen y) (fl.widen y));
        })
        a b

  unfoldable pub cosine : List Single → List Single → Double
  unfolding sums
  cosine a b =
      if not (length a == length b)
      then fl.zero
      else (let s = sums (record { dot = fl.zero; na = fl.zero; nb = fl.zero }) a b in
          if fl.eq s.na fl.zero || fl.eq s.nb fl.zero
          then fl.zero
          else fl.div s.dot (fl.mul (fl.sqrt s.na) (fl.sqrt s.nb)))

  -- the point, or the last window, of a direction
  unfoldable pub last_delta : List Window → Option Double
  last_delta [] = none
  last_delta (w ∷ []) = some w.delta
  last_delta (w ∷ v ∷ curve) = last_delta (v ∷ curve)

  unfoldable pub persists : Double → Double → Direction → Bool
  unfolding last_delta
  persists s2 pf d = if not d.stopped_at_boundary then false else elim (last_delta d.curve) [
    | none ↦ false
    | some last ↦ fl.ge last fl.struct_min_delta && fl.ge last (fl.mul s2 pf)
  ]

  unfoldable pub classify : Double → Direction → Direction → Double → Class
  unfolding persists
  classify s2 up down pf =
      if persists s2 pf up || persists s2 pf down
      then structural
      else if fl.ge s2 fl.local_thresh
      then localized_tweak
      else minor_edit

  -- `embed n t` is what the n-th call of `Embed` returns for the one text `t`
  module _ (embed : ℕ → Str → Option (List (List Single))) where
    -- `vs[0]`, stored under the text
    unfoldable pub store_first : Str → ℕ → Memo → List (List Single) → Outcome (List Single) × Memo
    store_first t n m [] = (err panicked, record m { calls = n })
    store_first t n m (v ∷ vs) = (ok v, record { cache = Assoc.set t v m.cache; calls = n })

    unfoldable pub ask : Str → Memo → Option (List (List Single)) → Outcome (List Single) × Memo
    unfolding store_first
    ask t m none = (err failed, record m { calls = m.calls + 1 })
    ask t m (some vs) = store_first t (m.calls + 1) m vs

    unfoldable pub cached : Str → Memo → Option (List Single) → Outcome (List Single) × Memo
    unfolding ask
    cached t m (some v) = (ok v, m)
    cached t m none = ask t m (embed m.calls t)

    unfoldable pub embed_one : Str → Embeds (List Single)
    unfolding cached
    embed_one t m = cached t m (Assoc.get t m.cache)

    unfoldable pub delta_text : Str → Str → Embeds Double
    unfolding embed_one cosine
    delta_text a b = if a == b then pure fl.zero else (do
      va ← embed_one a
      vb ← embed_one b
      pure (fl.max fl.zero (fl.min fl.one (fl.sub fl.one (cosine va vb)))))

    unfoldable pub diverge : Embeds Direction
    diverge m = (err diverged, m)

    -- the end of a round of `expand`: flattened, at the hard cap, or the rounds that follow
    unfoldable pub settle : Bool → Bool → List Window → Embeds Direction → Embeds Direction
    settle flat at_boundary longer rest =
        if flat
        then pure (record { curve = longer; stopped_at_boundary = false })
        else if at_boundary
        then pure (record { curve = longer; stopped_at_boundary = true })
        else rest

    -- the loop over `r`; the window gives the two texts and whether both files end there
    unfoldable pub expand_from :
        ℕ → ℕ → Double → List Window → (ℕ → Str × Str × Bool) → Embeds Direction
    unfolding diverge settle
    expand_from zero r prev curve w = diverge
    expand_from (suc fuel) r prev curve w = do
      let (old_text, new_text, at_boundary) = w r
      delta ← delta_text old_text new_text
      let longer = curve ++ record { radius = r; delta = delta } ∷ []
      settle (fl.lt (fl.abs (fl.sub delta prev)) fl.flatten_eps) at_boundary longer
          (expand_from fuel (r + 2) delta longer w)

    -- max(0, start-r) is the truncated difference
    unfoldable pub window_up : List Str → List Str → Change → ℕ → Str × Str × Bool
    window_up old new ch r =
        let os = ch.old_start - r in
        let ns = ch.new_start - r in
        (lines (slice old os ch.old_end), lines (slice new ns ch.new_end), os == 0 && ns == 0)

    unfoldable pub window_down : List Str → List Str → Change → ℕ → Str × Str × Bool
    window_down old new ch r =
        let oe = min (length old) (ch.old_end + r) in
        let ne = min (length new) (ch.new_end + r) in
        (
          lines (slice old ch.old_start oe),
          lines (slice new ch.new_start ne),
          oe == length old && ne == length new,
        )

    -- one round for each line above the change and in the files, and one more
    abbrev pub rounds : List Str → List Str → Change → ℕ
    rounds old new ch = suc (length old + length new + (ch.old_start + ch.new_start))

    unfoldable pub analyze_change : List Str → List Str → Double → Change → Embeds Report
    unfolding delta_text expand_from window_up window_down classify
    analyze_change old new pf ch = do
      s2 ←
          delta_text (lines (slice old ch.old_start ch.old_end))
            (lines (slice new ch.new_start ch.new_end))
      up ← expand_from (rounds old new ch) 2 s2 [] (window_up old new ch)
      down ← expand_from (rounds old new ch) 2 s2 [] (window_down old new ch)
      pure (record {
        change = ch;
        signal2 = s2;
        up = up;
        down = down;
        class = classify s2 up down pf;
      })

    unfoldable pub analyze_all :
        List Str → List Str → Double → List Change → List Report → Embeds (List Report)
    unfolding analyze_change
    analyze_all old new pf [] out = pure out
    analyze_all old new pf (ch ∷ rest) out = do
      r ← analyze_change old new pf ch
      analyze_all old new pf rest (out ++ r ∷ [])

    -- `Analyze`, on a fresh cache
    unfoldable pub analyze : List Str → List Str → Double → Outcome (List Report) × Memo
    unfolding analyze_all changes
    analyze old new pf =
        analyze_all old new pf (changes old new) [] (record { cache = []; calls = 0 })
