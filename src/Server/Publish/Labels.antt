-- ===== src/Server/Publish/Labels.antt =====
-- The classification of a change, where every call of the embedder returns a vector or an error.
use promptnet.Prelude.{
  ℕ, ◌≡◌, ◌≢◌, Option, some, List, [], Str, ◌==◌, str_eq, arith, map, Bool-cases, Option-cases, inl,
  inr,
}
use promptnet.Semdiff.Analyze.{Outcome, ok, err, failed, panicked, diverged, Report, analyze}
use promptnet.Semdiff.Changes.{changes}
use promptnet.Semdiff.Float.{Float}
use promptnet.Semdiff.Returns.{Returns, Refuses, Empties, analyze-Returns}
use promptnet.Semdiff.Verdict.{worst}
use promptnet.Server.Auth.{Code, ok, err}
use promptnet.Server.Handlers.{Wiring, label_of, classify, head_change, split_lines}
use promptnet.Store.Env.{Env}
use promptnet.Store.Exec.{
  Result, ok, err, not_found, branch_not_found, driver, constraint, bad_column, diverged,
}
use promptnet.Store.Table.{Prompt}

module _ (fl : Float) (wiring : Wiring fl) where
  -- no call of the embedder returns an empty list of vectors, which the analysis would index
  abbrev pub GivesVectors : Type 0
  GivesVectors =
      (embed : ℕ → Str → Option (List (List fl.Single)))
      → wiring.embedder ≡ some embed
      → (n : ℕ) (t : Str) → embed n t ≢ some []

module _ (env : Env) (fl : Float) (wiring : Wiring fl) where
  label_of_calm :
      (embed : ℕ → Str → Option (List (List fl.Single))) (Q : List (Report fl) → Type 0)
      (o : Outcome (List (Report fl))) (c : Code)
      → ((n : ℕ) (t : Str) → embed n t ≢ some [])
      → Returns (Refuses fl embed) (Empties fl embed) Q o
      → label_of env fl wiring o ≢ err c
  unfolding label_of Returns
  label_of_calm embed Q (ok rs) c gives r e =
      ground (arith, e, Option-cases (worst (map (λ (x : Report fl). x.class) rs)))
  label_of_calm embed Q (err failed) c gives r e = ground (arith, e)
  label_of_calm embed Q (err panicked) c gives (n, t, empty) e = gives n t empty
  label_of_calm embed Q (err diverged) c gives r e = absurd r

  classify_calm :
      (old_t new_t : Str) (c : Code)
      → GivesVectors fl wiring
      → classify env fl wiring old_t new_t ≢ err c
  unfolding classify
  classify_calm old_t new_t c gives e = elim (Option-cases wiring.embedder) [
    | inl off ↦ ground (arith, off, e)
    | inr (embed, on) ↦ ground (
      arith,
      on,
      e,
      label_of_calm embed
          (λ rs.
            map (λ (r : Report fl). r.change) rs ≡ changes (split_lines old_t) (split_lines new_t))
          (analyze fl embed (split_lines old_t) (split_lines new_t) wiring.pf).0 c (gives embed on)
          (analyze-Returns fl embed (split_lines old_t) (split_lines new_t) wiring.pf),
    )
  ]

  -- such an embedder lets no publish panic
  pub head_change_calm :
      (h template : Str) (r : Result Prompt) (c : Code)
      → GivesVectors fl wiring
      → head_change env fl wiring h template r ≢ some (err c)
  unfolding head_change
  head_change_calm h template (ok prev) c gives e = elim (Bool-cases (prev.version_hash == h)) [
    | inl same ↦ ground (arith, same, e)
    | inr differ ↦ classify_calm prev.template template c gives (ground (arith, differ, e))
  ]
  head_change_calm h template (err not_found) c gives e = ground (arith, e)
  head_change_calm h template (err branch_not_found) c gives e = ground (arith, e)
  head_change_calm h template (err driver) c gives e = ground (arith, e)
  head_change_calm h template (err constraint) c gives e = ground (arith, e)
  head_change_calm h template (err bad_column) c gives e = ground (arith, e)
  head_change_calm h template (err diverged) c gives e = ground (arith, e)
