-- ===== src/Command/Prompts/Seeds.antt =====
-- The demo prompt is seeded once.
use promptnet.Prelude.{◌≡◌, ◌≢◌, refl, sym, ap, ◌∙◌, subst, [], Str, arith, codes, ◌⊎◌, inl, inr}
use promptnet.Command.Prompts.{demo_uri, demo_template, demo_slots, seed_missing, seed_demo}
use promptnet.Command.Prompts.Puts.Writes.{prompt_of}
use promptnet.Store.Commits.{commit_on}
use promptnet.Store.Env.{Env, EnvLaws, AllText}
use promptnet.Store.Exec.{Result, ok, err, not_found, State}
use promptnet.Store.Quiet.{get_still, commit_on_quiet}
use promptnet.Store.Served.{commit_on-Shows}
use promptnet.Store.Table.{Prompt, default_branch, read_prompt}

abbrev demo : Env → Prompt
demo env = prompt_of env demo_uri demo_template demo_slots

abbrev seeded : Env → State → State
seeded env s =
    (commit_on env demo_uri default_branch demo_template demo_slots (codes "promptnet")
      (codes "seed: demo prompt") s).1

missing_or : (r : Result Prompt) → (r ≡ err not_found) ⊎ (r ≢ err not_found)
missing_or (err not_found) = inl refl
missing_or (ok p) = inr (λ e. absurd cc)
missing_or (err e) = inr (λ e. absurd cc)

seed_missing-kept :
    (env : Env) (r : Result Prompt) (s : State) → r ≢ err not_found → seed_missing env (r, s) ≡ s
unfolding seed_missing
seed_missing-kept env (ok p) s ne = refl
seed_missing-kept env (err e) s ne = ground (arith, ne)

seed_demo-read :
    (env : Env) (s : State)
    → s.io ≡ []
    → seed_demo env s ≡ seed_missing env (read_prompt env demo_uri s.db, s)
unfolding seed_demo
seed_demo-read env s quiet = ap (seed_missing env) (get_still env demo_uri s quiet)

seed_present :
    (env : Env) (s : State)
    → s.io ≡ []
    → read_prompt env demo_uri s.db ≢ err not_found
    → seed_demo env s ≡ s
seed_present env s quiet present =
    seed_demo-read env s quiet ∙ seed_missing-kept env (read_prompt env demo_uri s.db) s present

seed_absent :
    (env : Env) (s : State)
    → s.io ≡ []
    → read_prompt env demo_uri s.db ≡ err not_found
    → seed_demo env s ≡ seeded env s
seed_absent env s quiet absent =
    seed_demo-read env s quiet ∙ (unfold seed_missing in ap (λ r. seed_missing env (r, s)) absent)

-- What the seeding does to the served prompts.
pub record Seeds (env : Env) (s after : State) : Type 0 where
  pub present : read_prompt env demo_uri s.db ≢ err not_found → after ≡ s
  pub absent :
      read_prompt env demo_uri s.db ≡ err not_found
      → read_prompt env demo_uri after.db ≡ ok (demo env)
  pub others : (j : Str) → demo_uri ≢ j → read_prompt env j after.db ≡ read_prompt env j s.db
  pub again : seed_demo env after ≡ after

module _ (env : Env) {IsText : Str → Type 0} (laws : EnvLaws env IsText)
    (text : AllText IsText demo_slots) where
  kept-Seeds :
      (s after : State)
      → s.io ≡ []
      → read_prompt env demo_uri s.db ≢ err not_found
      → after ≡ s
      → Seeds env s after
  kept-Seeds s after quiet ne e = record {
    present = λ _. e;
    absent = λ no_prompt. absurd (ne no_prompt);
    others = λ j _. ap (λ (x : State). read_prompt env j x.db) e;
    again = ap (seed_demo env) e ∙ seed_present env s quiet ne ∙ sym e;
  }

  seeded-Seeds :
      (s : State)
      → s.io ≡ []
      → read_prompt env demo_uri s.db ≡ err not_found
      → Seeds env s (seeded env s)
  seeded-Seeds s quiet missing =
      let author = codes "promptnet" in
      let message = codes "seed: demo prompt" in
      let (h, run, still) =
        commit_on_quiet env demo_uri default_branch demo_template demo_slots author message s
          quiet in
      let shows =
        commit_on-Shows env laws demo_uri default_branch demo_template demo_slots author message h s
          text run in
      record {
        present = λ ne. absurd (ne missing);
        absent = λ _. shows.served refl;
        others = λ j ne. shows.others_served j (inr ne);
        again = seed_present env (seeded env s) still (λ e. ground (arith, shows.served refl, e));
      }

  -- While the database answers, seeding the demo prompt touches nothing if its URI is served, or
  -- cannot be read. Otherwise the demo prompt is served then, and every other prompt as before. To
  -- seed once more changes nothing.
  pub seed_demo-Seeds : (s : State) → s.io ≡ [] → Seeds env s (seed_demo env s)
  seed_demo-Seeds s quiet = elim (missing_or (read_prompt env demo_uri s.db)) [
    | inl e ↦ subst (Seeds env s) (sym (seed_absent env s quiet e)) (seeded-Seeds s quiet e)
    | inr ne ↦ kept-Seeds s (seed_demo env s) quiet ne (seed_present env s quiet ne)
  ]
