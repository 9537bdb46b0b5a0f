-- ===== src/Store/Migrate.antt =====
-- `migrate`: the schema's versions, one transaction for each migration that is not recorded yet.
use promptnet.Prelude.{
  ℕ, zero, suc, ◌+◌, ◌≤◌, ◌≡◌, refl, sym, ap, ◌∙◌, subst, Bool, true, false, List, [], ◌∷◌, ◌++◌,
  max, ◌-◌, if◌then◌else◌, Bool-cases, inl, inr, arith,
}

-- `versions` are the rows of schema_version and `applied` the migrations that were run, both in the
-- order of time; `io` says of each statement to come whether the database fails it.
pub record Schema : Type 0 where
  pub versions : List ℕ
  pub applied : List ℕ
  pub io : List Bool

-- some statements in a row: whether all succeed, and what is left; the first that fails is the last
unfoldable pub statements : ℕ → List Bool → Bool × List Bool
statements zero io = (true, io)
statements (suc n) [] = (true, [])
statements (suc n) (true ∷ io) = (false, io)
statements (suc n) (false ∷ io) = statements n io

-- SELECT COALESCE(MAX(version), 0)
unfoldable pub max_version : List ℕ → ℕ
max_version [] = 0
max_version (v ∷ vs) = max v (max_version vs)

pub record Migrated : Type 0 where
  pub done : Bool
  pub version : ℕ
  pub schema : Schema

-- the loop over `i`, with `cur`: Begin, the migration, the insert and Commit, or the rollback
unfoldable pub migrate_from : ℕ → ℕ → Schema → Migrated
unfolding statements
migrate_from zero i s = record { done = true; version = i; schema = s }
migrate_from (suc left) i s =
    let (fine, io) = statements 4 s.io in
    let next =
      migrate_from left (i + 1) (record {
        versions = s.versions ++ (i + 1) ∷ [];
        applied = s.applied ++ i ∷ [];
        io = io;
      }) in
    if fine then next else record { done = false; version = i; schema = record s { io = io } }

-- CREATE TABLE IF NOT EXISTS and the query, then the loop up to `n`, the number of migrations
unfoldable pub migrate : ℕ → Schema → Migrated
unfolding migrate_from max_version statements
migrate n s =
    let (fine, io) = statements 2 s.io in
    let cur = max_version s.versions in
    let read = record s { io = io } in
    if fine
    then migrate_from (n - cur) cur read
    else record { done = false; version = 0; schema = read }

unfoldable pub below : ℕ → List ℕ
below zero = []
below (suc k) = below k ++ k ∷ []

unfoldable pub upto : ℕ → List ℕ
upto zero = []
upto (suc k) = upto k ++ suc k ∷ []

-- the first `k` migrations were run, each once and in order, and are recorded
pub record IsAt (k : ℕ) (s : Schema) : Type 0 where
  pub applied : s.applied ≡ below k
  pub versions : s.versions ≡ upto k

below_next : (k : ℕ) → below (k + 1) ≡ below k ++ k ∷ []
unfolding below
below_next k = let is : k + 1 ≡ suc k = omega arith in ap below is

upto_next : (k : ℕ) → upto (k + 1) ≡ upto k ++ (k + 1) ∷ []
unfolding upto
upto_next k =
    let is : k + 1 ≡ suc k = omega arith in ap upto is ∙ ap (λ v. upto k ++ v ∷ []) (sym is)

max_version-snoc : (vs : List ℕ) (v : ℕ) → max_version (vs ++ v ∷ []) ≡ max (max_version vs) v
unfolding max_version
max_version-snoc [] v = omega arith
max_version-snoc (x ∷ vs) v = omega (arith, max_version-snoc vs v)

max_version-upto : (k : ℕ) → max_version (upto k) ≡ k
unfolding upto max_version
max_version-upto zero = refl
max_version-upto (suc k) = omega (arith, max_version-snoc (upto k) (suc k), max_version-upto k)

-- where a run leaves the schema: at a version between the old one and the last, the last if done
pub record Reaches (low n : ℕ) (m : Migrated) : Type 0 where
  pub at : ℕ
  pub is_at : IsAt at m.schema
  pub above : low ≤ at
  pub bounded : at ≤ n
  pub finished : m.done ≡ true → (m.version ≡ n) × (at ≡ n)

Reaches-later : {low n : ℕ} {m : Migrated} → Reaches (low + 1) n m → Reaches low n m
Reaches-later r = record {
  at = r.at;
  is_at = r.is_at;
  above = omega (arith, r.above);
  bounded = r.bounded;
  finished = r.finished;
}

migrate_from-Reaches :
    (left i n : ℕ) (s : Schema) → i + left ≡ n → IsAt i s → Reaches i n (migrate_from left i s)
unfolding migrate_from
migrate_from-Reaches zero i n s e a = record {
  at = i;
  is_at = a;
  above = omega arith;
  bounded = omega arith;
  finished = λ _. (omega arith, omega arith);
}
migrate_from-Reaches (suc left) i n s e a = elim (Bool-cases (statements 4 s.io).0) [
  | inl fine ↦ rw fine (
      Reaches-later (
        migrate_from-Reaches left (i + 1) n _ (omega (arith, e)) (record {
          applied = ap (λ l. l ++ i ∷ []) a.applied ∙ sym (below_next i);
          versions = ap (λ l. l ++ (i + 1) ∷ []) a.versions ∙ sym (upto_next i);
        })))
  | inr failed ↦ rw failed (record {
    at = i;
    is_at = record { applied = a.applied; versions = a.versions };
    above = omega arith;
    bounded = omega (arith, e);
    finished = λ d. absurd (ground (arith, d));
  })
]

-- Migrations survive interruption: from a schema at version `k`, `migrate` leaves it at a version
-- from `k` to `n`, with every migration up to there run once and in order, whichever statements
-- failed; if it reports no error, that is the last version, and it returns it.
pub migrate-Reaches : (n k : ℕ) (s : Schema) → k ≤ n → IsAt k s → Reaches k n (migrate n s)
unfolding migrate
migrate-Reaches n k s le a = elim (Bool-cases (statements 2 s.io).0) [
  | inl fine ↦
      let cur : k ≡ max_version s.versions = sym (ap max_version a.versions ∙ max_version-upto k) in
      let read : Schema = record s { io = (statements 2 s.io).1 } in
      rw fine (
        subst (λ c. Reaches k n (migrate_from (n - c) c read)) cur
          (migrate_from-Reaches (n - k) k n read (omega (arith, le))
            (record { applied = a.applied; versions = a.versions })))
  | inr failed ↦ rw failed (record {
    at = k;
    is_at = record { applied = a.applied; versions = a.versions };
    above = omega arith;
    bounded = le;
    finished = λ d. absurd (ground (arith, d));
  })
]
