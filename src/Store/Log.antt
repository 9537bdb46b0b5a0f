-- ===== src/Store/Log.antt =====
-- `Log`: the loop ends, and returns the first-parent chain.
use promptnet.Prelude.{
  ℕ, zero, suc, ◌≤◌, ◌<◌, ◌≡◌, ◌≢◌, refl, sym, ap, ◌∙◌, subst, true, false, some, List, [], ◌∷◌,
  ◌++◌, append_assoc, append-nil, Str, ◌==◌, str_eq, equal, equal_iff, if◌then◌else◌, arith,
  Bool-cases, Option-cases, ◌⊎◌, inl, inr, length,
}
use promptnet.Store.Env.{Env}
use promptnet.Store.Exec.{
  ok, CommitRow, Db, State, statement, next_io, ◌>>=◌, read_db, lift, continue,
}
use promptnet.Store.Table.{Commit, find, known, null_string, read_commit, decode_commit, read_tip}
use promptnet.Store.Commits.{tip, get_commit, log_from, log}
use promptnet.Store.History.{IsWf, ParentIn, Lineage, read_tip-known, known-ne}

-- the number of commits up to and with the one of this hash, oldest first; 0 if there is none
rank : Str → List CommitRow → ℕ
rank h [] = 0
rank h (c ∷ cs) = if c.hash == h then suc (length cs) else rank h cs

rank-le : (h : Str) (cs : List CommitRow) → rank h cs ≤ length cs
unfolding rank
rank-le h [] = omega arith
rank-le h (c ∷ cs) = ground (arith, rank-le h cs)

-- a commit of the table is not a new one
older-ne :
    (h p : Str) (cs : List CommitRow) → known h cs ≡ false → known p cs ≡ true → equal h p ≡ false
older-ne h p cs new old = elim (Bool-cases (equal h p)) [
  | inl same ↦ absurd (ground (arith, ap (λ (x : Str). known x cs) ((equal_iff h p).0 same)))
  | inr other ↦ other
]

-- a parent stands behind its child
rank-parent :
    (h : Str) (cs : List CommitRow) (row : CommitRow) (p : Str)
    → Lineage cs
    → find h cs ≡ some row
    → row.parent ≡ some p
    → (known p cs ≡ true) × (rank p cs < rank h cs)
unfolding rank find known
rank-parent h [] row p l e is = cc
rank-parent h (c ∷ cs) row p l e is = elim (Bool-cases (equal c.hash h)) [
  | inl here ↦
      let same : c ≡ row = ground arith in
      let k = subst (ParentIn cs) (ap (λ (r : CommitRow). r.parent) same ∙ is) l.2 in
      ground (arith, k.1, rank-le p cs, older-ne c.hash p cs l.1 k.1)
  | inr there ↦
      let later = rank-parent h cs row p l.4 (ground arith) is in
      ground (arith, later.0, later.1, older-ne c.hash p cs l.1 later.0)
]

module _ (env : Env) where
  -- The first-parent chain from a commit to its root, newest first.
  pub data Mainline (db : Db) : Str → List Commit → Type 0 where
    root : Mainline db [] []
    link :
        {h : Str} {c : Commit} {rest : List Commit}
        → h ≢ []
        → read_commit env h db ≡ ok c
        → Mainline db c.parent rest
        → Mainline db h (c ∷ rest)

  -- every commit of the table decrypts and decodes
  abbrev pub AllReadable : Db → Type 0
  AllReadable db =
      (h : Str) → known h db.commits ≡ true → (c : Commit) × (read_commit env h db ≡ ok c)

  parent-read :
      (h : Str) (db : Db) (c : Commit)
      → read_commit env h db ≡ ok c
      → (row : CommitRow) × (find h db.commits ≡ some row) × (c.parent ≡ null_string row.parent)
  unfolding read_commit decode_commit
  parent-read h db c e = elim (Option-cases (find h db.commits)) [
    | inl nothing ↦ absurd (ground arith)
    | inr (row, found) ↦ (row, found, ground arith)
  ]

  -- the next round is at the root or at an older commit
  parent-older :
      (h : Str) (db : Db) (c : Commit)
      → Lineage db.commits
      → read_commit env h db ≡ ok c
      → (c.parent ≡ [])
        ⊎ ((known c.parent db.commits ≡ true) × (rank c.parent db.commits < rank h db.commits))
  parent-older h db c l e =
      let (row, found, is) = parent-read h db c e in
      elim (Option-cases row.parent) [
        | inl nothing ↦ inl (is ∙ ap null_string nothing)
        | inr (p, some_p) ↦ inr (
            subst (λ x. (known x db.commits ≡ true) × (rank x db.commits < rank h db.commits))
              (sym (is ∙ ap null_string some_p)) (rank-parent h db.commits row p l found some_p))
      ]

  rank-pos : (h : Str) (cs : List CommitRow) → known h cs ≡ true → 0 < rank h cs
  unfolding rank known
  rank-pos h [] k = cc
  rank-pos h (c ∷ cs) k = ground (arith, rank-pos h cs)

pub statement_quiet : (s : State) → s.io ≡ [] → statement s ≡ (ok tt, s)
unfolding statement next_io
statement_quiet s e = ap (λ io. next_io io s) e

pub tip_quiet :
    (uri branch : Str) (s : State) → s.io ≡ [] → tip uri branch s ≡ (read_tip uri branch s.db, s)
unfolding tip
tip_quiet uri branch s e =
    ap (λ x. continue x.0 (λ _. read_db >>= λ db. lift (read_tip uri branch db)) x.1)
      (statement_quiet s e)

module _ (env : Env) where
  get_commit_quiet :
      (h : Str) (s : State) → s.io ≡ [] → get_commit env h s ≡ (read_commit env h s.db, s)
  unfolding get_commit
  get_commit_quiet h s e =
      ap (λ x. continue x.0 (λ _. read_db >>= λ db. lift (read_commit env h db)) x.1)
        (statement_quiet s e)

  -- where the loop may start with so much fuel
  abbrev Fits : ℕ → Str → Db → Type 0
  Fits fuel h db =
      ((h ≡ []) × (0 < fuel)) ⊎ ((known h db.commits ≡ true) × (rank h db.commits < fuel))

  Fits-next :
      (fuel : ℕ) (h : Str) (db : Db) (c : Commit)
      → IsWf db
      → known h db.commits ≡ true
      → rank h db.commits < suc fuel
      → read_commit env h db ≡ ok c
      → Fits fuel c.parent db
  Fits-next fuel h db c w k f e = elim (parent-older env h db c w.lineage e) [
    | inl top ↦ inl (top, omega (arith, rank-pos env h db.commits k))
    | inr older ↦ inr (older.0, omega (arith, older.1))
  ]

  log_from_nil :
      (fuel : ℕ) (out : List Commit) (s : State) → log_from env (suc fuel) [] out s ≡ (ok out, s)
  unfolding log_from equal
  log_from_nil fuel out s = refl

  log_from-cons :
      (fuel : ℕ) (h : Str) (out : List Commit) (s : State)
      → h ≢ []
      → log_from env (suc fuel) h out s
        ≡ (do c ← get_commit env h; log_from env fuel c.parent (out ++ c ∷ [])) s
  unfolding log_from
  log_from-cons fuel h out s ne = elim (Bool-cases (equal h [])) [
    | inl empty ↦ absurd (ne ((equal_iff h []).0 empty))
    | inr other ↦ rw other refl
  ]

  log_from-Mainline :
      (fuel : ℕ) (h : Str) (out : List Commit) (s : State)
      → s.io ≡ []
      → IsWf s.db
      → AllReadable env s.db
      → Fits fuel h s.db
      → (chain : List Commit) × (log_from env fuel h out s ≡ (ok (out ++ chain), s))
        × Mainline env s.db h chain
  log_from-Mainline zero h out s q w all (inl f) = absurd (omega (arith, f.1))
  log_from-Mainline zero h out s q w all (inr f) = absurd (omega (arith, f.1))
  log_from-Mainline (suc fuel) h out s q w all (inl f) = (
    [],
    rw (f.0, append-nil) (log_from_nil fuel out s),
    subst (λ x. Mainline env s.db x []) (sym f.0) root,
  )
  log_from-Mainline (suc fuel) h out s q w all (inr f) =
      let (c, e) = all h f.0 in
      let ne = known-ne h s.db.commits w.lineage f.0 in
      let (chain, run, line) =
        log_from-Mainline fuel c.parent (out ++ c ∷ []) s q w all
          (Fits-next fuel h s.db c w f.0 f.1 e) in
      let step : get_commit env h s ≡ (ok c, s) = get_commit_quiet h s q ∙ ap (λ r. (r, s)) e in
      (
        c ∷ chain,
        log_from-cons fuel h out s ne
            ∙ ap
                (λ x. continue x.0 (λ (c : Commit). log_from env fuel c.parent (out ++ c ∷ [])) x.1)
                step
            ∙ run
            ∙ ap (λ l. (ok l, s)) (append_assoc out (c ∷ []) chain),
        link ne e line,
      )

  -- On a well-formed store whose commits can be read, and when the database fails no statement,
  -- `Log` of a branch ends: it returns the chain of first parents from the branch's tip down to a
  -- root, newest first, and changes nothing.
  pub log-Mainline :
      (uri branch h : Str) (s : State)
      → s.io ≡ []
      → IsWf s.db
      → AllReadable env s.db
      → read_tip uri branch s.db ≡ ok h
      → (chain : List Commit) × (log env uri branch s ≡ (ok chain, s)) × Mainline env s.db h chain
  unfolding log
  log-Mainline uri branch h s q w all t =
      let k = read_tip-known uri branch h s.db w t in
      let (chain, run, line) =
        log_from-Mainline (suc (length s.db.commits)) h [] s q w all
          (inr (k.1, omega (arith, rank-le h s.db.commits))) in
      (
        chain,
        ap
              (λ x.
                continue x.0
                  (λ (h : Str). read_db >>= λ db. log_from env (suc (length db.commits)) h []) x.1)
              (tip_quiet uri branch s q ∙ ap (λ r. (r, s)) t)
            ∙ run,
        line,
      )
