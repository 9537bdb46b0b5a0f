-- ===== src/Store/Exec.antt =====
-- The database, and the effects of a call on it: a statement that may fail, the random source, the
-- clock, and transactions. An error leaves what was written outside a transaction as it stands.
use promptnet.Prelude.{
  ℕ, ◌≡◌, Bool, true, false, Option, List, [], ◌∷◌, Str, Eq, ◌&&◌, ◌↔◌, equal, equal_iff, arith,
  str_eq,
}

-- not_found and branch_not_found are the sentinels of the package; every other error is passed on.
-- `diverged` is not an error of the code: it marks a loop that has used up its fuel.
pub data StoreError : Type 0 where
  not_found branch_not_found driver constraint bad_column diverged : StoreError

pub data Result {ℓ} (A : Type ℓ) : Type ℓ where
  ok : A → Result A
  err : StoreError → Result A

pub record RefKey : Type 0 where
  pub uri : Str
  pub branch : Str

unfoldable pub ref_beq : RefKey → RefKey → Bool
ref_beq a b = equal a.uri b.uri && equal a.branch b.branch

pub ref_beq_iff : (a b : RefKey) → (ref_beq a b ≡ true) ↔ (a ≡ b)
unfolding ref_beq
ref_beq_iff a b = ground (arith, equal_iff a.uri b.uri, equal_iff a.branch b.branch)

instance abbrev pub ref_eq : Eq RefKey
ref_eq = record { beq = ref_beq; beq_iff = ref_beq_iff }

-- The columns of the tables, as they are stored: `template` and `slots` may be encrypted.
pub record PromptRow : Type 0 where
  pub template : Str
  pub slots : Str
  pub version_hash : Str

pub record CommitRow : Type 0 where
  pub hash : Str
  pub uri : Str
  pub template : Str
  pub slots : Str
  pub version_hash : Str
  pub parent : Option Str
  pub parent2 : Option Str
  pub author : Str
  pub message : Str
  pub created_at : ℕ

-- The rows of `commits` stand newest first.
pub record Db : Type 0 where
  pub prompts : List (Str × PromptRow)
  pub commits : List CommitRow
  pub refs : List (RefKey × Str)

-- `io` says of each statement to come whether the database fails it; where it ends, none fails.
-- `draws` counts the reads of the random source.
pub record State : Type 0 where
  pub db : Db
  pub io : List Bool
  pub draws : ℕ
  pub clock : ℕ

abbrev pub Exec {ℓ} : Type ℓ → Type ℓ
Exec A = State → Result A × State

module _ {ℓ} {A : Type ℓ} where
  abbrev pub pure : A → Exec A
  pure a s = (ok a, s)

  abbrev pub raise : StoreError → Exec A
  raise e s = (err e, s)

  abbrev pub lift : Result A → Exec A
  lift r s = (r, s)

module _ {ℓ κ} {A : Type ℓ} {B : Type κ} where
  abbrev pub continue : Result A → (A → Exec B) → Exec B
  continue (ok a) f s = f a s
  continue (err e) f s = (err e, s)

  infixl 5 ◌>>=◌ ◌>>◌
  abbrev pub ◌>>=◌ : Exec A → (A → Exec B) → Exec B
  ◌>>=◌ m f s = continue (m s).0 f (m s).1

  abbrev pub ◌>>◌ : Exec A → Exec B → Exec B
  m >> n = m >>= λ _. n

-- one statement reaches the database, or fails
unfoldable pub next_io : List Bool → State → Result (Unit {0}) × State
next_io [] s = (ok tt, s)
next_io (true ∷ rest) s = (err driver, record s { io = rest })
next_io (false ∷ rest) s = (ok tt, record s { io = rest })

unfoldable pub statement : Exec (Unit {0})
unfolding next_io
statement s = next_io s.io s

abbrev pub read_db : Exec Db
read_db s = (ok s.db, s)

abbrev pub modify : (Db → Db) → Exec (Unit {0})
modify f s = (ok tt, record s { db = f s.db })

-- `tx.Commit`, and the rollback that puts the tables back
unfoldable pub finish {ℓ} : {A : Type ℓ} → Db → A → Result (Unit {0}) → State → Result A × State
finish before a (ok _) s = (ok a, s)
finish before a (err e) s = (err e, record s { db = before })

unfoldable pub conclude {ℓ} : {A : Type ℓ} → Db → Result A → State → Result A × State
conclude before (err e) s = (err e, record s { db = before })
conclude before (ok a) s = finish before a (statement s).0 (statement s).1

unfoldable pub transaction {ℓ} : {A : Type ℓ} → Exec A → Exec A
unfolding conclude finish
transaction body = statement >> λ s. conclude s.db (body s).0 (body s).1
