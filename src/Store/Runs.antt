-- ===== src/Store/Runs.antt =====
-- The theorems about histories of the store at a concrete history: a first commit on the trunk, a
-- branch, and a commit on the branch.
use promptnet.Prelude.{
  ◌≡◌, refl, List, [], ◌∷◌, Str, codes, equal, equal_iff, arith, true, false, none,
}
use promptnet.Prelude.Assoc
use promptnet.Prelude.Text.{join, cut_prefix}
use promptnet.Store.Calls.{Call, commit_at, branch_at, run, run_all, run_all-IsWf}
use promptnet.Store.Commits.{
  tip, commit_on, commit, create_ref, create_branch, merge_message, get_commit, parent_or_root,
  materialize, merge, reseal, set_branch, log,
}
use promptnet.Store.Crypt.{seal, unseal, decrypt, sealed}
use promptnet.Store.Examples.{
  toy, toy_laws, fresh_node, uri_a, text_a, slots_a, digest, copies, write_slots, read_slots, push,
  uncover,
}
use promptnet.Store.Exec.{
  ok, err, not_found, State, statement, next_io, transaction, conclude, finish, ref_beq,
}
use promptnet.Store.Hash.{
  hash, commit_hash, hex, content_preimage, commit_preimage, fields_preimage,
}
use promptnet.Store.Integrity.{TextCalls, version_hash_integrity, log_total, later-IsSound}
use promptnet.Store.Content.{IsSound}
use promptnet.Store.History.{IsWf}
use promptnet.Store.Migrate.{Schema, below, upto, Reaches, migrate, migrate-Reaches}
use promptnet.Store.Log.{Mainline}
use promptnet.Store.Served.{Shows, commit_on-Shows, merge-Shows, set_branch-Shows}
use promptnet.Store.Quiet.{shared_first_commit}
use promptnet.Store.Table.{
  default_branch, Prompt, Commit, find, known, insert_commit, set_ref, get_ref, put_prompt,
  read_tip, read_prompt, read_commit, with_columns, slots_of, decode_commit,
}

abbrev dev : Str
dev = codes "dev"

abbrev text_b : Str
text_b = codes "Hello {x}"

abbrev first : Str
first = commit_hash toy (hash toy text_a slots_a) [] [] [] []

abbrev second : Str
second = commit_hash toy (hash toy text_b slots_a) first [] [] []

abbrev merged : Str
merged =
    commit_hash toy (hash toy text_b slots_a) first second [] (merge_message [] dev default_branch)

abbrev calls : List Call
calls =
    commit_at uri_a default_branch text_a slots_a [] []
    ∷ branch_at uri_a dev default_branch
    ∷ commit_at uri_a dev text_b slots_a [] []
    ∷ []

abbrev node : State
node = run_all toy calls fresh_node

calls-TextCalls : TextCalls toy toy_laws calls
calls-TextCalls = ((((λ e. cc), tt), tt), (tt, ((((λ e. cc), tt), tt), tt)))

version_hash_integrity_example :
    ((uri : Str) (p : Prompt)
      → read_prompt toy uri node.db ≡ ok p
      → p.version_hash ≡ hash toy p.template p.slots)
    × ((h : Str) (c : Commit)
        → read_commit toy h node.db ≡ ok c
        → c.version_hash ≡ hash toy c.template c.slots)
version_hash_integrity_example =
    version_hash_integrity toy toy_laws calls fresh_node refl calls-TextCalls

quiet : node.io ≡ []
unfolding run_all run commit_on commit tip statement next_io read_tip get_ref Assoc.get Assoc.set
    create_branch create_ref seal sealed transaction conclude finish equal put_prompt set_ref
    insert_commit known ref_beq materialize parent_or_root hash commit_hash hex content_preimage
    commit_preimage fields_preimage join digest copies write_slots
quiet = refl

test_commit : (commit_on toy uri_a default_branch text_a slots_a [] [] fresh_node).0 ≡ ok first
unfolding run_all run commit_on commit tip statement next_io read_tip get_ref Assoc.get Assoc.set
    create_branch create_ref seal sealed transaction conclude finish equal put_prompt set_ref
    insert_commit known ref_beq materialize parent_or_root hash commit_hash hex content_preimage
    commit_preimage fields_preimage join digest copies write_slots
test_commit = refl

test_tip : read_tip uri_a dev node.db ≡ ok second
unfolding run_all run commit_on commit tip statement next_io read_tip get_ref Assoc.get Assoc.set
    create_branch create_ref seal sealed transaction conclude finish equal put_prompt set_ref
    insert_commit known ref_beq materialize parent_or_root hash commit_hash hex content_preimage
    commit_preimage fields_preimage join digest copies write_slots
test_tip = refl

test_merge : (merge toy uri_a default_branch dev [] [] node).0 ≡ ok merged
unfolding run_all run commit_on commit tip statement next_io read_tip get_ref Assoc.get Assoc.set
    create_branch create_ref seal sealed transaction conclude finish equal put_prompt set_ref
    insert_commit known ref_beq materialize parent_or_root hash commit_hash hex content_preimage
    commit_preimage fields_preimage join digest copies write_slots merge merge_message get_commit
    read_commit find decode_commit with_columns slots_of unseal decrypt cut_prefix uncover
    read_slots push
test_merge = refl

sound : IsSound toy toy_laws node.db
sound = later-IsSound toy toy_laws calls fresh_node refl calls-TextCalls

commit_on-Shows_example :
    Shows toy uri_a default_branch first text_a slots_a
      (hash toy text_a slots_a)
      fresh_node.db
      (commit_on toy uri_a default_branch text_a slots_a [] [] fresh_node).1.db
commit_on-Shows_example =
    commit_on-Shows toy toy_laws uri_a default_branch text_a slots_a [] [] first fresh_node
      (((λ e. cc), tt), tt) test_commit

merge-Shows_example :
    (theirs : Str) × (src : Commit) × (read_tip uri_a dev node.db ≡ ok theirs)
    × (read_commit toy theirs node.db ≡ ok src)
    × Shows toy uri_a default_branch merged src.template src.slots src.version_hash node.db
        (merge toy uri_a default_branch dev [] [] node).1.db
merge-Shows_example =
    merge-Shows toy toy_laws uri_a default_branch dev [] [] merged node sound test_merge

abbrev on_dev : Commit
on_dev = record {
  hash = second;
  uri = uri_a;
  template = text_b;
  slots = slots_a;
  version_hash = hash toy text_b slots_a;
  parent = first;
  parent2 = [];
  author = [];
  message = [];
  created_at = 7;
}

test_set_branch : (set_branch toy uri_a default_branch second node).0 ≡ ok on_dev
unfolding run_all run commit_on commit tip statement next_io read_tip get_ref Assoc.get Assoc.set
    create_branch create_ref seal sealed transaction conclude finish equal put_prompt set_ref
    insert_commit known ref_beq materialize parent_or_root hash commit_hash hex content_preimage
    commit_preimage fields_preimage join digest copies write_slots merge merge_message get_commit
    read_commit find decode_commit with_columns slots_of unseal decrypt cut_prefix uncover
    read_slots push set_branch reseal
test_set_branch = refl

set_branch-Shows_example :
    (read_commit toy second node.db ≡ ok on_dev)
    × (on_dev.uri ≡ uri_a)
    × Shows toy uri_a default_branch second text_b slots_a
        (hash toy text_b slots_a)
        node.db
        (set_branch toy uri_a default_branch second node).1.db
set_branch-Shows_example =
    set_branch-Shows toy toy_laws uri_a default_branch second on_dev node sound test_set_branch

log_total_example :
    (chain : List Commit) × (log toy uri_a dev node ≡ (ok chain, node))
    × Mainline toy node.db second chain
log_total_example =
    log_total toy toy_laws calls fresh_node refl calls-TextCalls uri_a dev second quiet test_tip

run_all-IsWf_example : IsWf node.db
run_all-IsWf_example =
    run_all-IsWf toy toy_laws calls fresh_node
      (record { lineage = tt; tips_known = λ u b h e. unfold get_ref Assoc.get in cc })

-- the trunk after the first commit, seen from another prompt
abbrev uri_b : Str
uri_b = codes "promptnet://acme/b"

abbrev root : Commit
root = record {
  hash = first;
  uri = uri_a;
  template = text_a;
  slots = slots_a;
  version_hash = hash toy text_a slots_a;
  parent = [];
  parent2 = [];
  author = [];
  message = [];
  created_at = 7;
}

test_fresh : get_ref uri_b default_branch node.db ≡ none
unfolding run_all run commit_on commit tip statement next_io read_tip get_ref Assoc.get Assoc.set
    create_branch create_ref seal sealed transaction conclude finish equal put_prompt set_ref
    insert_commit known ref_beq materialize parent_or_root hash commit_hash hex content_preimage
    commit_preimage fields_preimage join digest copies write_slots merge merge_message get_commit
    read_commit find decode_commit with_columns slots_of unseal decrypt cut_prefix uncover
    read_slots push
test_fresh = refl

test_root : read_commit toy first node.db ≡ ok root
unfolding run_all run commit_on commit tip statement next_io read_tip get_ref Assoc.get Assoc.set
    create_branch create_ref seal sealed transaction conclude finish equal put_prompt set_ref
    insert_commit known ref_beq materialize parent_or_root hash commit_hash hex content_preimage
    commit_preimage fields_preimage join digest copies write_slots merge merge_message get_commit
    read_commit find decode_commit with_columns slots_of unseal decrypt cut_prefix uncover
    read_slots push
test_root = refl

test_uris : equal uri_a uri_b ≡ false
unfolding equal
test_uris = refl

shared_first_commit_example :
    (h : Str) × ((commit_on toy uri_b default_branch text_a slots_a [] [] node).0 ≡ ok h)
    × ((b : Str)
        → (set_branch toy uri_b b h
            (commit_on toy uri_b default_branch text_a slots_a [] [] node).1).0
          ≡ err not_found)
shared_first_commit_example =
    shared_first_commit toy uri_b default_branch text_a slots_a [] [] root node quiet test_fresh
      test_root (ground (arith, test_uris, equal_iff uri_a uri_b))

abbrev interrupted : Schema
interrupted = record { versions = 1 ∷ []; applied = 0 ∷ []; io = false ∷ false ∷ false ∷ true ∷ [] }

migrate-Reaches_example : Reaches 1 3 (migrate 3 interrupted)
migrate-Reaches_example =
    migrate-Reaches 3 1 interrupted (omega arith)
      (record { applied = unfold below in refl; versions = unfold upto in refl })
