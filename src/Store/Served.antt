-- ===== src/Store/Served.antt =====
-- What the tables serve after a commit, a merge and a rollback, and what they keep.
pub mod Kept
use promptnet.Prelude.{
  ◌≡◌, ◌≢◌, refl, sym, ap, ◌∙◌, subst, false, none, some, List, Str, str_eq, equal_iff, arith, ◌⊎◌,
}
use promptnet.Prelude.Assoc
use promptnet.Store.Commits.{commit_on, merge, set_branch}
use promptnet.Store.Content.{Holds, IsSound, decode_prompt-Holds, decode_commit-Holds}
use promptnet.Store.Effects.{Recorded, put_commit, serve, prompt_of}
use promptnet.Store.Env.{Env, EnvLaws, AllText}
use promptnet.Store.Exec.{ok, RefKey, ref_beq, ref_beq_iff, PromptRow, CommitRow, Db, State}
use promptnet.Store.Hash.{hash}
use promptnet.Store.History.{get_ref-set_ref}
use promptnet.Store.Integrity.{read_commit-content}
use promptnet.Store.Methods.{commit_on-Ensures, merge-Ensures, set_branch-Ensures}
use promptnet.Store.Table.{
  default_branch, Commit, find, set_ref, get_ref, read_prompt, read_commit, read_tip,
  read_prompt-get, read_commit-find,
}
use promptnet.Store.Served.Kept.{
  read_prompt-eq, get-serve, get_ref-serve, commits-serve, at, get-put_commit, get_ref-put_commit,
  find-put_commit, find-put_commit_new,
}

-- What the tables show after content was put on a branch: the branch points at the commit `h`,
-- which reads as this content unless a commit of its hash was there before, every other branch of
-- every prompt points at what it did, the trunk serves the content, nothing else that is served
-- changes, and the commits that were there are as they were.
pub record Shows (env : Env) (uri branch h template : Str) (slots : List Str) (version : Str)
    (before after : Db) : Type 0 where
  pub tip_moved : read_tip uri branch after ≡ ok h
  pub content :
      find h before.commits ≡ none
      → (c : Commit) × (read_commit env h after ≡ ok c)
        × (c.uri ≡ uri)
        × (c.template ≡ template)
        × (c.slots ≡ slots)
        × (c.version_hash ≡ version)
  pub tips_kept : (u b : Str) → at uri branch ≢ at u b → read_tip u b after ≡ read_tip u b before
  pub served :
      branch ≡ default_branch
      → read_prompt env uri after
        ≡ ok (record { uri = uri; template = template; slots = slots; version_hash = version })
  pub others_served :
      (j : Str)
      → (branch ≢ default_branch) ⊎ (uri ≢ j)
      → read_prompt env j after ≡ read_prompt env j before
  pub history_kept :
      (x : Str) (old : CommitRow)
      → find x before.commits ≡ some old
      → find x after.commits ≡ some old

read_tip-eq :
    (u b : Str) (d e : Db) → get_ref u b d ≡ get_ref u b e → read_tip u b d ≡ read_tip u b e
unfolding read_tip
read_tip-eq u b d e p = ground arith

read_tip-some : (u b h : Str) (d : Db) → get_ref u b d ≡ some h → read_tip u b d ≡ ok h
unfolding read_tip
read_tip-some u b h d p = ground arith

find-ne :
    (env : Env) (h : Str) (c : Commit) (d : Db)
    → read_commit env h d ≡ ok c
    → find h d.commits ≢ none
unfolding read_commit
find-ne env h c d e new = ground (arith, e, new)

differ : (k : RefKey) (l : RefKey) → k ≢ l → ref_beq k l ≡ false
differ k l ne = ground (arith, ref_beq_iff k l)

module _ (env : Env) {IsText : Str → Type 0} (laws : EnvLaws env IsText) where
  put_commit-Shows :
      (branch template : Str) (slots : List Str) (row : CommitRow) (db : Db)
      → Holds env laws (prompt_of row) template slots
      → Shows env row.uri branch row.hash template slots row.version_hash db
          (put_commit branch row db)
  put_commit-Shows branch template slots row db holds = record {
    tip_moved = read_tip-some row.uri branch row.hash _ (
        ground (
          arith,
          get_ref-put_commit branch row db row.uri branch,
          ref_beq_iff (at row.uri branch) (at row.uri branch),
        ));
    content = λ new.
        let (c, decoded, t, l, v, _, at_uri) =
          decode_commit-Holds env laws row template slots holds in
        (
          c,
          read_commit-find env row.hash (put_commit branch row db) row
                (find-put_commit_new branch row db new)
              ∙ decoded,
          at_uri,
          t,
          l,
          v,
        );
    tips_kept = λ u b ne. read_tip-eq u b _ db (
        ground
          (arith, get_ref-put_commit branch row db u b, differ (at row.uri branch) (at u b) ne));
    served = λ trunk.
        read_prompt-get env row.uri _ (prompt_of row) (
          ground (
            arith,
            get-put_commit branch row db row.uri,
            equal_iff branch default_branch,
            equal_iff row.uri row.uri,
          ))
        ∙ decode_prompt-Holds env laws row.uri (prompt_of row) template slots holds;
    others_served = λ j ne. read_prompt-eq env j _ db (
        ground (
          arith,
          ne,
          get-put_commit branch row db j,
          equal_iff branch default_branch,
          equal_iff row.uri j,
        ));
    history_kept = find-put_commit branch row db;
  }

  Recorded-Shows :
      {uri branch template : Str} {slots : List Str} {parent parent2 author message h : Str}
      {d₀ d : Db}
      → AllText IsText slots
      → Recorded env uri branch template slots parent parent2 author message d₀ h d
      → Shows env uri branch h template slots (hash env template slots) d₀ d
  Recorded-Shows {branch} {template} {slots} {d₀} text a =
      let shown = put_commit-Shows branch template slots a.row d₀ (record {
        text = text;
        template_column = a.template_column;
        slots_column = a.slots_column;
        version = a.version;
      }) in
      let at_d =
        subst (Shows env a.row.uri branch a.row.hash template slots a.row.version_hash d₀)
          (sym a.tables) shown in
      let at_v =
        subst (λ v. Shows env a.row.uri branch a.row.hash template slots v d₀ _) a.version at_d in
      let at_h =
        subst (λ h. Shows env a.row.uri branch h template slots _ d₀ _) (sym a.returned) at_v in
      subst (λ u. Shows env u branch _ template slots _ d₀ _) a.at_uri at_h

  -- After a commit that returns `h`, the branch points at `h`, and `h` reads as the committed content
  -- of this prompt, with its version hash, unless there was a commit of the hash `h` before. Every
  -- other branch of every prompt points where it did, the served prompt is the committed one if the
  -- branch is the trunk, nothing else that is served has changed, and no commit is lost or
  -- overwritten.
  pub commit_on-Shows :
      (uri branch template : Str) (slots : List Str) (author message h : Str) (s : State)
      → AllText IsText slots
      → (commit_on env uri branch template slots author message s).0 ≡ ok h
      → Shows env uri branch h template slots
          (hash env template slots)
          s.db
          (commit_on env uri branch template slots author message s).1.db
  commit_on-Shows uri branch template slots author message h s text e =
      Recorded-Shows text
        ((commit_on-Ensures env s.db uri branch template slots author message).gives s h refl
          e).recorded

  -- After a merge that returns `h`, the target branch points at `h`, and `h` reads as the content of
  -- the tip of the source branch before, with its version hash, unless there was a commit of the hash
  -- `h` before. On the trunk that content is served; every other branch, everything else that is
  -- served and all commits that were there are as they were. The tables were sound.
  pub merge-Shows :
      (uri into from author message h : Str) (s : State)
      → IsSound env laws s.db
      → (merge env uri into from author message s).0 ≡ ok h
      → (theirs : Str) × (src : Commit) × (read_tip uri from s.db ≡ ok theirs)
        × (read_commit env theirs s.db ≡ ok src)
        × Shows env uri into h src.template src.slots src.version_hash s.db
            (merge env uri into from author message s).1.db
  merge-Shows uri into from author message h s sound e =
      let m = (merge-Ensures env s.db uri into from author message).gives s h refl e in
      let content = read_commit-content env laws m.src_hash m.src s.db sound m.theirs in
      (
        m.src_hash,
        m.src,
        m.from_tip,
        m.theirs,
        subst
            (λ v.
              Shows env uri into h m.src.template m.src.slots v s.db
                (merge env uri into from author message s).1.db)
            (sym content.1) (Recorded-Shows content.0 m.recorded),
      )

  point-Shows :
      (uri branch h : Str) (c : Commit) (row : PromptRow) (db : Db)
      → (branch ≡ default_branch
          → Holds env laws row c.template c.slots × (row.version_hash ≡ c.version_hash))
      → find h db.commits ≢ none
      → Shows env uri branch h c.template c.slots c.version_hash db
          (serve uri branch row (set_ref uri branch h db))
  point-Shows uri branch h c row db holds known_commit = record {
    content = λ new. absurd (known_commit new);
    tip_moved = read_tip-some uri branch h _ (
        get_ref-serve uri branch row _ uri branch
        ∙ get_ref-set_ref uri branch h uri branch db
        ∙ ground (arith, ref_beq_iff (at uri branch) (at uri branch)));
    tips_kept = λ u b ne. read_tip-eq u b _ db (
        get_ref-serve uri branch row _ u b
        ∙ get_ref-set_ref uri branch h u b db
        ∙ ground (arith, differ (at uri branch) (at u b) ne));
    served = λ trunk.
        let content = holds trunk in
        read_prompt-get env uri _ row (
          ground (
            arith,
            get-serve uri branch row (set_ref uri branch h db) uri,
            equal_iff branch default_branch,
            equal_iff uri uri,
          ))
        ∙ decode_prompt-Holds env laws uri row c.template c.slots content.0
        ∙ ground (arith, content.1);
    others_served = λ j ne. read_prompt-eq env j _ db (
        unfold set_ref in
        ground (
          arith,
          ne,
          get-serve uri branch row (set_ref uri branch h db) j,
          equal_iff branch default_branch,
          equal_iff uri j,
        ));
    history_kept = λ x old e.
        ap (find x) (commits-serve uri branch row (set_ref uri branch h db)) ∙ unfold set_ref in e;
  }

  -- After a rollback that returns the commit `c`, `c` is the commit of that hash and belongs to the
  -- prompt, and the tables show its content on the branch.
  pub set_branch-Shows :
      (uri branch h : Str) (c : Commit) (s : State)
      → IsSound env laws s.db
      → (set_branch env uri branch h s).0 ≡ ok c
      → (read_commit env h s.db ≡ ok c)
        × (c.uri ≡ uri)
        × Shows env uri branch h c.template c.slots c.version_hash s.db
            (set_branch env uri branch h s).1.db
  set_branch-Shows uri branch h c s sound e =
      let p = (set_branch-Ensures env s.db uri branch h).gives s c refl e in
      let content = read_commit-content env laws h c s.db sound p.found in
      (
        p.found,
        p.of_uri,
        subst (Shows env uri branch h c.template c.slots c.version_hash s.db) (sym p.tables) (
            point-Shows uri branch h c p.row s.db
              (λ trunk.
                let st = p.stored trunk in
                (
                  record {
                    text = content.0;
                    template_column = st.template_column;
                    slots_column = st.slots_column;
                    version = st.version ∙ content.1;
                  },
                  st.version,
                ))
              (find-ne env h c s.db p.found)),
      )
