-- ===== src/Store/Keeps.antt =====
-- Triples for actions, one rule for each way to build an action.
use promptnet.Prelude.{◌≡◌, refl, arith, sym, ap, ◌∙◌, subst, ◌⊎◌, inl, inr}
use promptnet.Store.Exec.{
  StoreError, Result, ok, err, driver, Db, State, Exec, pure, raise, lift, ◌>>=◌, ◌>>◌, continue,
  statement, next_io, read_db, modify, transaction, conclude, finish,
}

pub Result-cases {ℓ} :
    {A : Type ℓ} (r : Result A) → ((a : A) × (r ≡ ok a)) ⊎ ((e : StoreError) × (r ≡ err e))
Result-cases (ok a) = inl (a, refl)
Result-cases (err e) = inr (e, refl)

-- From tables with `P`, an error leaves tables with `I`, and a result `a` tables with `Q a`.
pub record Ensures {ℓ} {A : Type ℓ} (I P : Db → Type 0) (m : Exec A) (Q : A → Db → Type 0)
    : Type ℓ where
  pub gives : (s : State) (a : A) → P s.db → (m s).0 ≡ ok a → Q a (m s).1.db
  pub fails : (s : State) (e : StoreError) → P s.db → (m s).0 ≡ err e → I (m s).1.db

module _ {ℓ} {A : Type ℓ} {I P : Db → Type 0} {Q : A → Db → Type 0} where
  pub Ensures-pure : (a : A) → ((d : Db) → P d → Q a d) → Ensures I P (pure a) Q
  Ensures-pure a h = record {
    gives = λ s b p e. let same : a ≡ b = ground arith in subst (λ c. Q c s.db) same (h s.db p);
    fails = λ s b p e. absurd (ground arith);
  }

  pub Ensures-raise : (e : StoreError) → ((d : Db) → P d → I d) → Ensures I P (raise {A = A} e) Q
  Ensures-raise e h = record {
    gives = λ s a p r. absurd (ground arith);
    fails = λ s a p r. h s.db p;
  }

  -- what does not touch the tables
  pub Ensures_still :
      (m : Exec A)
      → ((s : State) → (m s).1.db ≡ s.db)
      → ((d : Db) → P d → I d)
      → ((s : State) (a : A) → (m s).0 ≡ ok a → P s.db → Q a s.db)
      → Ensures I P m Q
  Ensures_still m same keep h = record {
    gives = λ s a p r. subst (Q a) (sym (same s)) (h s a r p);
    fails = λ s a p r. subst I (sym (same s)) (keep s.db p);
  }

module _ {ℓ} {A : Type ℓ} {I P : Db → Type 0} {Q : A → Db → Type 0} {F : Type 0} where
  -- a fact about the values so far is used as a hypothesis
  pub Ensures-given : (m : Exec A) → (F → Ensures I P m Q) → Ensures I (λ d. P d × F) m Q
  Ensures-given m k = record {
    gives = λ s a p. (k p.1).gives s a p.0;
    fails = λ s e p. (k p.1).fails s e p.0;
  }

module _ {ℓ} {A : Type ℓ} {I P : Db → Type 0} {Q R : A → Db → Type 0} where
  pub Ensures-weaken :
      (m : Exec A) → ((a : A) (d : Db) → Q a d → R a d) → Ensures I P m Q → Ensures I P m R
  Ensures-weaken m h k = record {
    gives = λ s a p r. h a (m s).1.db (k.gives s a p r);
    fails = k.fails;
  }

module _ {I P : Db → Type 0} {Q : Unit {0} → Db → Type 0} where
  pub Ensures-modify : (f : Db → Db) → ((d : Db) → P d → Q tt (f d)) → Ensures I P (modify f) Q
  Ensures-modify f h = record {
    gives = λ s a p r. h s.db p;
    fails = λ s a p r. absurd (ground arith);
  }

module _ {ℓ κ} {A : Type ℓ} {B : Type κ} {I P : Db → Type 0} {Q : A → Db → Type 0}
    {R : B → Db → Type 0} where
  pub Ensures-bind :
      (m : Exec A) (f : A → Exec B)
      → Ensures I P m Q
      → ((a : A) → Ensures I (Q a) (f a) R)
      → Ensures I P (m >>= f) R
  Ensures-bind m f km kf = record {
    gives = λ s b p r. elim (Result-cases (m s).0) [
      | inl (a, e) ↦
          let run : f a (m s).1 ≡ continue (m s).0 f (m s).1 = rw e refl in
          subst (λ x. R b x.1.db) run
            ((kf a).gives (m s).1 b (km.gives s a p e) (ap (λ x. x.0) run ∙ r))
      | inr (x, e) ↦ absurd (ground arith)
    ];
    fails = λ s b p r. elim (Result-cases (m s).0) [
      | inl (a, e) ↦
          let run : f a (m s).1 ≡ continue (m s).0 f (m s).1 = rw e refl in
          subst (λ x. I x.1.db) run
            ((kf a).fails (m s).1 b (km.gives s a p e) (ap (λ x. x.0) run ∙ r))
      | inr (x, e) ↦
          let stop : (err x, (m s).1) ≡ continue (m s).0 f (m s).1 = rw e refl in
          subst (λ y. I y.1.db) stop (km.fails s x p e)
    ];
  }

pub db-statement : (s : State) → (statement s).1.db ≡ s.db
unfolding statement next_io
db-statement s = ground arith

pub statement_result : (s : State) → ((statement s).0 ≡ ok tt) ⊎ ((statement s).0 ≡ err driver)
unfolding statement next_io
statement_result s = ground arith

module _ {I P : Db → Type 0} where
  pub Ensures-statement : ((d : Db) → P d → I d) → Ensures I P statement (λ _ d. P d)
  Ensures-statement keep = Ensures_still statement db-statement keep (λ s a r p. p)

conclude_ok {ℓ} :
    {A : Type ℓ} (before : Db) (r : Result A) (s : State) (a : A)
    → (conclude before r s).0 ≡ ok a
    → (r ≡ ok a) × ((conclude before r s).1.db ≡ s.db)
unfolding conclude finish
conclude_ok before (ok b) s a h = ground (arith, db-statement s)
conclude_ok before (err e) s a h = absurd (ground arith)

conclude_err {ℓ} :
    {A : Type ℓ} (before : Db) (r : Result A) (s : State) (e : StoreError)
    → (conclude before r s).0 ≡ err e
    → (conclude before r s).1.db ≡ before
unfolding conclude finish
conclude_err before (ok b) s e h = ground arith
conclude_err before (err x) s e h = refl

module _ {ℓ} {A : Type ℓ} {I P : Db → Type 0} {Q : A → Db → Type 0} where
  -- a statement that reads
  pub Ensures-query :
      (f : Db → Result A)
      → ((d : Db) → P d → I d)
      → ((a : A) (d : Db) → f d ≡ ok a → P d → Q a d)
      → Ensures I P (do statement; db ← read_db; lift (f db)) Q
  Ensures-query f keep h = record {
    gives = λ s a p r. let e = query_ok s a r in subst (Q a) (sym e.1) (h a s.db e.0 p);
    fails = λ s a p r. subst I (sym (query-db s)) (keep s.db p);
  }
    where
      query-db : (s : State) → ((do statement; db ← read_db; lift (f db)) s).1.db ≡ s.db
      query-db s = ground (arith, db-statement s)

      query_ok :
          (s : State) (a : A)
          → ((do statement; db ← read_db; lift (f db)) s).0 ≡ ok a
          → (f s.db ≡ ok a) × (((do statement; db ← read_db; lift (f db)) s).1.db ≡ s.db)
      query_ok s a r = ground (arith, db-statement s)

  -- A transaction that fails leaves the tables as they were.
  pub Ensures-transaction :
      (body : Exec A)
      → ((d : Db) → P d → I d)
      → Ensures (λ _. Unit) P body Q
      → Ensures I P (transaction body) Q
  unfolding transaction
  Ensures-transaction body keep k =
      Ensures-bind statement (λ _ s. conclude s.db (body s).0 (body s).1) (Ensures-statement keep)
        (λ _. record {
          gives = λ s a p r.
              let (ran, tables) = conclude_ok s.db (body s).0 (body s).1 a r in
              subst (Q a) (sym tables) (k.gives s a p ran);
          fails =
              λ s e p r. subst I (sym (conclude_err s.db (body s).0 (body s).1 e r)) (keep s.db p);
        })
