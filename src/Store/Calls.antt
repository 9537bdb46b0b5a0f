-- ===== src/Store/Calls.antt =====
-- Sequences of calls on a store, and the invariant that all of them keep. A call may fail at any of
-- its statements, as `io` says.
use promptnet.Prelude.{
  ◌≡◌, ◌≢◌, refl, sym, ap, subst, true, List, [], ◌∷◌, Str, arith, ◌⊎◌, inl, inr, length,
  Option-cases,
}
use promptnet.Store.Env.{Env, EnvLaws}
use promptnet.Store.Exec.{ok, Db, State, Exec}
use promptnet.Store.Keeps.{Ensures, Result-cases}
use promptnet.Store.Hash.{hex, commit_hash}
use promptnet.Store.Table.{read_tip, read_commit, find, known, Commit}
use promptnet.Store.Commits.{put, commit_on, create_branch, merge, set_branch, parent_or_root}
use promptnet.Store.Effects.{Recorded}
use promptnet.Store.Methods.{
  put-Ensures, commit_on-Ensures, create_branch-Ensures, merge-Ensures, set_branch-Ensures,
}
use promptnet.Store.History.{
  IsWf, ParentIn, put_commit-IsWf, serve-IsWf, set_ref-IsWf, put_prompt-IsWf, read_tip-known,
  nullable-ParentIn, known_of_find, known-ne,
}

pub data Call : Type 0 where
  put_prompt_at : Str → Str → List Str → Call
  commit_at : Str → Str → Str → List Str → Str → Str → Call
  branch_at : Str → Str → Str → Call
  merge_at : Str → Str → Str → Str → Str → Call
  set_branch_at : Str → Str → Str → Call

-- the state that a call leaves, whether or not it returns an error
unfoldable pub run : Env → Call → State → State
run env (put_prompt_at uri template slots) s = (put env uri template slots s).1
run env (commit_at uri branch template slots author message) s =
    (commit_on env uri branch template slots author message s).1
run env (branch_at uri name from) s = (create_branch uri name from s).1
run env (merge_at uri into from author message) s = (merge env uri into from author message s).1
run env (set_branch_at uri branch h) s = (set_branch env uri branch h s).1

unfoldable pub run_all : Env → List Call → State → State
unfolding run
run_all env [] s = s
run_all env (c ∷ calls) s = run_all env calls (run env c s)

-- An invariant is kept by a method whose effect is known.
pub Ensures-keeps {ℓ} :
    {A : Type ℓ} (P : Db → Type 0) (m : Exec A) (Q : A → Db → Type 0) (s : State)
    → Ensures (λ d. d ≡ s.db) (λ d. d ≡ s.db) m Q
    → ((a : A) (d : Db) → Q a d → P d)
    → P s.db
    → P (m s).1.db
Ensures-keeps P m Q s k h p = elim (Result-cases (m s).0) [
  | inl (a, e) ↦ h a (m s).1.db (k.gives s a refl e)
  | inr (x, e) ↦ subst P (sym (k.fails s x refl e)) p
]

hex-ne : (s : Str) → s ≢ [] → hex s ≢ []
unfolding hex
hex-ne [] h = absurd (h refl)
hex-ne (c ∷ s) h = λ e. cc

module _ (env : Env) {IsText : Str → Type 0} (laws : EnvLaws env IsText) where
  pub commit_hash-ne : (v p p2 a m : Str) → commit_hash env v p p2 a m ≢ []
  unfolding commit_hash
  commit_hash-ne v p p2 a m =
      hex-ne _ λ e. absurd (omega (arith, ap (λ (x : Str). length x) e, laws.length-sha256 _))

  Recorded-IsWf :
      {uri branch template : Str} {slots : List Str} {parent parent2 author message h : Str}
      {d₀ d : Db}
      → IsWf d₀
      → (parent ≡ []) ⊎ (known parent d₀.commits ≡ true)
      → (parent2 ≡ []) ⊎ (known parent2 d₀.commits ≡ true)
      → Recorded env uri branch template slots parent parent2 author message d₀ h d
      → IsWf d
  Recorded-IsWf {branch} {parent} {parent2} {d₀} w k k2 a = subst IsWf (sym a.tables) (
      put_commit-IsWf branch a.row d₀
        (subst (λ x. x ≢ []) (sym a.identity) (commit_hash-ne _ _ _ _ _))
        (subst (ParentIn d₀.commits) (sym a.first_parent) (nullable-ParentIn parent d₀.commits k))
        (subst (ParentIn d₀.commits) (sym a.second_parent)
          (nullable-ParentIn parent2 d₀.commits k2))
        w)

  root-known :
      (uri branch p : Str) (d₀ : Db)
      → IsWf d₀
      → parent_or_root (read_tip uri branch d₀) ≡ ok p
      → (p ≡ []) ⊎ (known p d₀.commits ≡ true)
  root-known uri branch p d₀ w e = elim (Result-cases (read_tip uri branch d₀)) [
    | inl (h, r) ↦
        inr (read_tip-known uri branch p d₀ w (unfold parent_or_root in ground (arith, r))).1
    | inr (x, r) ↦ inl (unfold parent_or_root read_tip in ground (arith, r))
  ]

  pub read_commit-known :
      (h : Str) (c : Commit) (d : Db) → read_commit env h d ≡ ok c → known h d.commits ≡ true
  unfolding read_commit
  read_commit-known h c d e = elim (Option-cases (find h d.commits)) [
    | inl nothing ↦ absurd (ground arith)
    | inr (row, found) ↦ known_of_find h d.commits row found
  ]

  run-IsWf : (c : Call) (s : State) → IsWf s.db → IsWf (run env c s).db
  unfolding run
  run-IsWf (put_prompt_at uri template slots) s w =
      Ensures-keeps IsWf _ _ s (put-Ensures env s.db uri template slots)
        (λ a d q. subst IsWf (sym q.2) (put_prompt-IsWf uri q.0 s.db w)) w
  run-IsWf (commit_at uri branch template slots author message) s w =
      Ensures-keeps IsWf _ _ s (commit_on-Ensures env s.db uri branch template slots author message)
        (λ h d q.
          Recorded-IsWf w (root-known uri branch q.parent s.db w q.parent_is) (inl refl) q.recorded)
        w
  run-IsWf (branch_at uri name from) s w =
      Ensures-keeps IsWf _ _ s (create_branch-Ensures s.db uri name from)
        (λ a d q.
          let k = read_tip-known uri from q.src s.db w q.from_tip in
          subst IsWf (sym q.tables) (set_ref-IsWf uri name q.src s.db k.0 k.1 w))
        w
  run-IsWf (merge_at uri into from author message) s w =
      Ensures-keeps IsWf _ _ s (merge-Ensures env s.db uri into from author message)
        (λ h d q.
          Recorded-IsWf w (inr (read_tip-known uri into q.dst s.db w q.into_tip).1)
            (inr (read_tip-known uri from q.src_hash s.db w q.from_tip).1) q.recorded)
        w
  run-IsWf (set_branch_at uri branch h) s w =
      Ensures-keeps IsWf _ _ s (set_branch-Ensures env s.db uri branch h)
        (λ c d q. subst IsWf (sym q.tables) (
          serve-IsWf uri branch q.row _ (
            set_ref-IsWf uri branch h s.db
              (known-ne h s.db.commits w.lineage (read_commit-known h c s.db q.found))
              (read_commit-known h c s.db q.found) w)))
        w

  -- Whatever calls are made, and wherever the database fails them, the graph stays well formed:
  -- hashes are distinct, every parent is an older commit, and every branch points at a commit.
  pub run_all-IsWf : (calls : List Call) (s : State) → IsWf s.db → IsWf (run_all env calls s).db
  unfolding run_all
  run_all-IsWf [] s w = w
  run_all-IsWf (c ∷ calls) s w = run_all-IsWf calls (run env c s) (run-IsWf c s w)
