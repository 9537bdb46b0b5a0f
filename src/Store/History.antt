-- ===== src/Store/History.antt =====
-- The commit graph: every parent is in the table and older than its child, every branch points at
-- a commit, and every method keeps it so.
use promptnet.Prelude.{
  ◌≡◌, ◌≢◌, sym, ◌∙◌, subst, true, false, ◌||◌, Option, none, some, List, [], ◌∷◌, Str, str_eq,
  equal, equal_iff, equal_refl, if◌then◌else◌, arith, Bool-cases, Option-cases, ◌⊎◌, inl, inr,
}
use promptnet.Prelude.Assoc.{get-set}
use promptnet.Store.Exec.{ok, ref_eq, ref_beq, PromptRow, CommitRow, Db}
use promptnet.Store.Table.{
  default_branch, find, known, insert_commit, set_ref, get_ref, put_prompt, nullable, read_tip,
}
use promptnet.Store.Effects.{serve, put_commit}

-- the parent column names a commit of the table, or none
abbrev pub ParentIn : List CommitRow → Option Str → Type 0
ParentIn cs none = Unit
ParentIn cs (some p) = (p ≢ []) × (known p cs ≡ true)

abbrev pub Lineage : List CommitRow → Type 0
Lineage [] = Unit
Lineage (c ∷ cs) =
    (c.hash ≢ [])
    × (known c.hash cs ≡ false)
    × ParentIn cs c.parent
    × ParentIn cs c.parent2
    × Lineage cs

pub record IsWf (db : Db) : Type 0 where
  pub lineage : Lineage db.commits
  pub tips_known :
      (uri branch h : Str) → get_ref uri branch db ≡ some h → (h ≢ []) × (known h db.commits ≡ true)

pub known_of_find :
    (h : Str) (cs : List CommitRow) (row : CommitRow) → find h cs ≡ some row → known h cs ≡ true
unfolding find known
known_of_find h [] row e = cc
known_of_find h (c ∷ cs) row e = ground (arith, known_of_find h cs row)

pub find_of_known :
    (h : Str) (cs : List CommitRow) → known h cs ≡ true → (row : CommitRow) × (find h cs ≡ some row)
unfolding find known
find_of_known h [] k = cc
find_of_known h (c ∷ cs) k = elim (Bool-cases (equal c.hash h)) [
  | inl here ↦ (c, rw here)
  | inr there ↦ let (row, e) = find_of_known h cs (ground arith) in (row, rw there e)
]

pub hash-find :
    (h : Str) (cs : List CommitRow) (row : CommitRow) → find h cs ≡ some row → row.hash ≡ h
unfolding find
hash-find h [] row e = cc
hash-find h (c ∷ cs) row e = ground (arith, equal_iff c.hash h, hash-find h cs row)

known-insert_commit :
    (h : Str) (row : CommitRow) (db : Db)
    → known h (insert_commit row db).commits ≡ (known h db.commits || equal row.hash h)
unfolding insert_commit known
known-insert_commit h row db = ground (arith, equal_iff row.hash h)

insert_commit-Lineage :
    (row : CommitRow) (db : Db)
    → row.hash ≢ []
    → ParentIn db.commits row.parent
    → ParentIn db.commits row.parent2
    → Lineage db.commits
    → Lineage (insert_commit row db).commits
unfolding insert_commit
insert_commit-Lineage row db ne p p2 h = elim (Bool-cases (known row.hash db.commits)) [
  | inl old ↦ rw old h
  | inr new ↦ rw new (ne, new, p, p2, h)
]

pub get_ref-set_ref :
    (uri branch h uri' branch' : Str) (db : Db)
    → get_ref uri' branch' (set_ref uri branch h db) ≡ (
        if ref_beq (record { uri = uri; branch = branch }) (record { uri = uri'; branch = branch' })
        then some h
        else get_ref uri' branch' db)
unfolding get_ref set_ref
get_ref-set_ref uri branch h uri' branch' db = get-set _ _ h db.refs

pub get_ref-insert_commit :
    (uri branch : Str) (row : CommitRow) (db : Db)
    → get_ref uri branch (insert_commit row db) ≡ get_ref uri branch db
unfolding get_ref insert_commit
get_ref-insert_commit uri branch row db = ground arith

-- the served rows are no part of the graph
pub put_prompt-IsWf :
    (uri : Str) (row : PromptRow) (db : Db) → IsWf db → IsWf (put_prompt uri row db)
unfolding put_prompt get_ref
put_prompt-IsWf uri row db w = record { lineage = w.lineage; tips_known = w.tips_known }

pub serve-IsWf :
    (uri branch : Str) (row : PromptRow) (db : Db) → IsWf db → IsWf (serve uri branch row db)
unfolding serve
serve-IsWf uri branch row db w = elim (Bool-cases (equal branch default_branch)) [
  | inl trunk ↦ rw trunk (put_prompt-IsWf uri row db w)
  | inr other ↦ rw other w
]

pub set_ref-IsWf :
    (uri branch h : Str) (db : Db)
    → h ≢ []
    → known h db.commits ≡ true
    → IsWf db
    → IsWf (set_ref uri branch h db)
set_ref-IsWf uri branch h db ne k w = record {
  lineage = unfold set_ref in w.lineage;
  tips_known = λ u b t e. unfold set_ref in pointed u b t e;
}
  where
    pointed :
        (u b t : Str)
        → get_ref u b (set_ref uri branch h db) ≡ some t
        → (t ≢ []) × (known t db.commits ≡ true)
    pointed u b t e =
        elim (Bool-cases
          (ref_beq (record { uri = uri; branch = branch }) (record { uri = u; branch = b }))) [
            | inl same ↦
                let is : h ≡ t = ground (arith, get_ref-set_ref uri branch h u b db) in
                subst (λ x. (x ≢ []) × (known x db.commits ≡ true)) is (ne, k)
            | inr other ↦ w.tips_known u b t (ground (arith, get_ref-set_ref uri branch h u b db))
          ]

insert_commit-IsWf :
    (row : CommitRow) (db : Db)
    → row.hash ≢ []
    → ParentIn db.commits row.parent
    → ParentIn db.commits row.parent2
    → IsWf db
    → IsWf (insert_commit row db)
insert_commit-IsWf row db ne p p2 w = record {
  lineage = insert_commit-Lineage row db ne p p2 w.lineage;
  tips_known = λ u b t e.
      let k = w.tips_known u b t (sym (get_ref-insert_commit u b row db) ∙ e) in
      (k.0, ground (arith, known-insert_commit t row db, k.1));
}

pub put_commit-IsWf :
    (branch : Str) (row : CommitRow) (db : Db)
    → row.hash ≢ []
    → ParentIn db.commits row.parent
    → ParentIn db.commits row.parent2
    → IsWf db
    → IsWf (put_commit branch row db)
unfolding put_commit
put_commit-IsWf branch row db ne p p2 w = serve-IsWf row.uri branch _ _ (
    set_ref-IsWf row.uri branch row.hash (insert_commit row db) ne
      (ground (arith, known-insert_commit row.hash row db, equal_refl row.hash))
      (insert_commit-IsWf row db ne p p2 w))

-- a tip that was read is a commit, and a missing branch makes a root
pub read_tip-known :
    (uri branch h : Str) (db : Db)
    → IsWf db
    → read_tip uri branch db ≡ ok h
    → (h ≢ []) × (known h db.commits ≡ true)
unfolding read_tip
read_tip-known uri branch h db w e = elim (Option-cases (get_ref uri branch db)) [
  | inl nothing ↦ absurd (ground arith)
  | inr (t, found) ↦ w.tips_known uri branch h (ground arith)
]

pub nullable-ParentIn :
    (h : Str) (cs : List CommitRow) → (h ≡ []) ⊎ (known h cs ≡ true) → ParentIn cs (nullable h)
nullable-ParentIn [] cs k = tt
nullable-ParentIn (c ∷ h) cs (inl e) = absurd cc
nullable-ParentIn (c ∷ h) cs (inr k) = ((λ e. cc), k)

pub known-ne : (h : Str) (cs : List CommitRow) → Lineage cs → known h cs ≡ true → h ≢ []
unfolding known
known-ne h [] l k = cc
known-ne h (c ∷ cs) l k = elim (Bool-cases (equal c.hash h)) [
  | inl here ↦ λ e. l.0 ((equal_iff c.hash h).0 here ∙ e)
  | inr there ↦ known-ne h cs l.4 (ground arith)
]
