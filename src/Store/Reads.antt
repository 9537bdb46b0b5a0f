-- ===== src/Store/Reads.antt =====
-- The methods that only read leave the tables as they are.
use promptnet.Prelude.{
  ℕ, zero, suc, ◌≡◌, refl, ◌∙◌, List, [], ◌∷◌, ◌++◌, Str, str_eq, arith, inl, inr, length,
}
use promptnet.Store.Commits.{tip, get_commit, by_hash, resolve_tip, resolve, log_from, log}
use promptnet.Store.Env.{Env}
use promptnet.Store.Exec.{
  Result, ok, err, not_found, branch_not_found, driver, constraint, bad_column, diverged, State,
}
use promptnet.Store.Keeps.{db-statement, Result-cases}
use promptnet.Store.Listing.{Sql, list}
use promptnet.Store.Methods.{db-tip}
use promptnet.Store.Table.{Commit}

module _ (env : Env) where
  pub db-get_commit : (h : Str) (s : State) → (get_commit env h s).1.db ≡ s.db
  unfolding get_commit
  db-get_commit h s = ground (arith, db-statement s)

  db-by_hash : (uri ref : Str) (s : State) → (by_hash env uri ref s).1.db ≡ s.db
  unfolding by_hash
  db-by_hash uri ref s = ground (arith, db-get_commit ref s)

  db-resolve_tip :
      (uri ref : Str) (r : Result Str) (s : State) → (resolve_tip env uri ref r s).1.db ≡ s.db
  unfolding resolve_tip
  db-resolve_tip uri ref (ok h) s = db-get_commit h s
  db-resolve_tip uri ref (err branch_not_found) s = db-by_hash uri ref s
  db-resolve_tip uri ref (err not_found) s = refl
  db-resolve_tip uri ref (err driver) s = refl
  db-resolve_tip uri ref (err constraint) s = refl
  db-resolve_tip uri ref (err bad_column) s = refl
  db-resolve_tip uri ref (err diverged) s = refl

  pub db-resolve : (uri ref : Str) (s : State) → (resolve env uri ref s).1.db ≡ s.db
  unfolding resolve
  db-resolve uri ref s =
      db-resolve_tip uri ref (tip uri ref s).0 (tip uri ref s).1 ∙ db-tip uri ref s

  db-log_from :
      (fuel : ℕ) (h : Str) (out : List Commit) (s : State) → (log_from env fuel h out s).1.db ≡ s.db
  unfolding log_from
  db-log_from zero h out s = refl
  db-log_from (suc fuel) h out s = elim (Result-cases (get_commit env h s).0) [
    | inl (c, found) ↦
        let after = (get_commit env h s).1 in
        ground (arith, found, db-get_commit h s, db-log_from fuel c.parent (out ++ (c ∷ [])) after)
    | inr (e, failed) ↦ ground (arith, failed, db-get_commit h s)
  ]

  pub db-log : (uri branch : Str) (s : State) → (log env uri branch s).1.db ≡ s.db
  unfolding log
  db-log uri branch s = elim (Result-cases (tip uri branch s).0) [
    | inl (h, found) ↦
        let after = (tip uri branch s).1 in
        ground (
          arith,
          found,
          db-tip uri branch s,
          db-log_from (suc (length after.db.commits)) h [] after,
        )
    | inr (e, failed) ↦ ground (arith, failed, db-tip uri branch s)
  ]

pub db-list : (sql : Sql) (prefix : Str) (s : State) → (list sql prefix s).1.db ≡ s.db
unfolding list
db-list sql prefix s = ground (arith, db-statement s)
