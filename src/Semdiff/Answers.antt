-- ===== src/Semdiff/Answers.antt =====
-- With an embedder that answers, the analysis answers.
use promptnet.Prelude.{ℕ, ◌≡◌, refl, Option, some, List, [], ◌∷◌, Str, str_eq, nat_eq, arith, map}
use promptnet.Semdiff.Analyze.{Outcome, ok, err, failed, panicked, diverged, Report, analyze}
use promptnet.Semdiff.Changes.{changes}
use promptnet.Semdiff.Embedders.{Counting, Http, lexical, embed_with, lexical_embed}
use promptnet.Semdiff.Float.{Float}
use promptnet.Semdiff.Returns.{Returns, Refuses, Empties, analyze-Returns}

module _ (fl : Float) (embed : ℕ → Str → Option (List (List fl.Single)))
    (answers : (n : ℕ) (t : Str)
      → (v : List fl.Single) × (vs : List (List fl.Single)) × (embed n t ≡ some (v ∷ vs))) where
  answered :
      (Q : List (Report fl) → Type 0) (o : Outcome (List (Report fl)))
      → Returns (Refuses fl embed) (Empties fl embed) Q o
      → (rs : List (Report fl)) × (o ≡ ok rs) × Q rs
  unfolding Returns
  answered Q (ok rs) q = (rs, refl, q)
  answered Q (err failed) (n, t, e) = absurd (ground (arith, (answers n t).2, e))
  answered Q (err panicked) (n, t, e) = absurd (ground (arith, (answers n t).2, e))
  answered Q (err diverged) q = absurd q

  -- with an embedder that always returns a vector, the analysis has a report for each hunk
  pub analyze-answers :
      (old new : List Str) (pf : fl.Double)
      → (rs : List (Report fl)) × ((analyze fl embed old new pf).0 ≡ ok rs)
        × (map (λ (r : Report fl). r.change) rs ≡ changes old new)
  analyze-answers old new pf =
      answered (λ rs. map (λ (r : Report fl). r.change) rs ≡ changes old new)
        (analyze fl embed old new pf).0 (analyze-Returns fl embed old new pf)

-- With the offline embedder an analysis always succeeds, whatever the two files: it ends with one
-- report for each hunk of the line diff, in their order.
pub analyze-lexical :
    (fl : Float) (net : Http fl) (counting : Counting fl) (old new : List Str) (pf : fl.Double)
    → (rs : List (Report fl)) × ((analyze fl (λ n. embed_with fl net counting lexical) old new pf).0
        ≡ ok rs)
      × (map (λ (r : Report fl). r.change) rs ≡ changes old new)
unfolding embed_with lexical_embed
analyze-lexical fl net counting old new pf =
    analyze-answers fl (λ n. embed_with fl net counting lexical) (λ n t. (_, [], refl)) old new pf
