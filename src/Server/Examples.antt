-- ===== src/Server/Examples.antt =====
-- The theorems about the service at concrete requests.
mod Chain
use promptnet.Prelude.{
  ℕ, List, Str, ◌≡◌, ◌≢◌, ◌↔◌, refl, true, false, none, some, [], ◌∷◌, codes, equal,
}
use promptnet.Prelude.Assoc
use promptnet.Prelude.Keys.{contains}
use promptnet.Prelude.Text.{join, cut_prefix}
use promptnet.Semdiff.Examples.{hundredths, lengths}
use promptnet.Server.Auth.{
  ok, err, permission_denied, Ctx, Token, authorized, may_write, intercept, scope_value, org_of,
}
use promptnet.Server.Auth.Tokens.{Opens, bearer, intercept-iff-Opens}
use promptnet.Server.Guards.{handle_other_org, handle_read_only, mutates}
use promptnet.Server.Handlers.{
  Wiring, cached_or_head, serve_head, serve_valid, respond, publish_prompt, get_prompt, branch_or,
  head_change, commit_stored,
}
use promptnet.Server.Cache
use promptnet.Server.Cache.{Response, fresh}
use promptnet.Server.Coherent.{get_prompt-respond}
use promptnet.Server.Histories.{serve_all, get_prompt-IsValid}
use promptnet.Server.Publish.{publish_prompt-get_prompt}
use promptnet.Server.Republish.{publish_prompt-publish_prompt}
use promptnet.Server.Requests.{Request, publish, list_request, handle, target}
use promptnet.Server.Serve.{at_time, cached, Node, guard, without_entry}
use promptnet.Store.Examples.{
  toy, toy_laws, fresh_node, uri_a, text_a, slots_a, digest, copies, write_slots, read_slots,
  uncover,
}
use promptnet.Store.Exec.{ok, statement, transaction, ref_beq}
use promptnet.Store.Commits.{get, commit_on, tip, commit}
use promptnet.Store.Crypt.{seal, unseal, decrypt}
use promptnet.Store.Hash.{
  hash, commit_hash, hex, content_preimage, commit_preimage, fields_preimage,
}
use promptnet.Store.Listing.{Sql}
use promptnet.Store.Table.{
  Prompt, default_branch, read_prompt, decode_prompt, read_tip, get_ref, set_ref, insert_commit,
  known, put_prompt, with_columns, slots_of,
}
use promptnet.Validate.{prompt}

abbrev wiring : Wiring hundredths
wiring = record { embedder = some lengths; pf = 60; notifier = true }

abbrev author : Token
author = record { org = codes "acme"; expires = 0; write = true }

abbrev pub admin : Ctx
admin = record { scope = none; write = none }

abbrev reader : Ctx
reader = record { scope = some (codes "acme"); write = some false }

abbrev pub started : Node
started = record { store = fresh_node; cache = some (record { ttl = 60; m = [] }); events = [] }

abbrev sql : Sql
sql = record { like = λ p t. equal p t; order_by_uri = λ l. l }

intercept-iff-Opens_example :
    (intercept ((codes "k", author) ∷ []) 9 (some (bearer (codes "k")))
      ≡ ok (record { scope = some (codes "acme"); write = some true }))
    ↔ Opens
        ((codes "k", author) ∷ [])
        9
        (some (bearer (codes "k")))
        (record { scope = some (codes "acme"); write = some true })
intercept-iff-Opens_example =
    intercept-iff-Opens (codes "k", author) [] 9 (some (bearer (codes "k")))
      (record { scope = some (codes "acme"); write = some true }) (unfold Assoc.get in refl, tt)

test_other : scope_value reader ≢ org_of (target (list_request (codes "promptnet://other/p")))
unfolding scope_value org_of target
test_other = λ e. absurd cc

handle_other_org_example :
    handle toy sql hundredths wiring reader (list_request (codes "promptnet://other/p")) started
    ≡ (err permission_denied, started)
handle_other_org_example =
    handle_other_org toy sql hundredths wiring reader (list_request (codes "promptnet://other/p"))
      started (unfold scope_value in λ e. cc) test_other

handle_read_only_example :
    handle toy sql hundredths wiring reader (publish uri_a text_a slots_a [] []) started
    ≡ (err permission_denied, started)
handle_read_only_example =
    handle_read_only toy sql hundredths wiring reader (publish uri_a text_a slots_a [] []) started
      refl (unfold mutates in refl)

abbrev published : Node
published = (publish_prompt toy hundredths wiring admin uri_a text_a slots_a [] [] started).1

abbrev served : Prompt
served = record {
  uri = uri_a;
  template = text_a;
  slots = slots_a;
  version_hash = hash toy text_a slots_a;
}

test_publish :
    (publish_prompt toy hundredths wiring admin uri_a text_a slots_a [] [] started).0
    ≡ ok (hash toy text_a slots_a)
unfolding publish_prompt guard authorized may_write equal prompt contains branch_or get statement
    read_prompt decode_prompt Assoc.get Assoc.set head_change commit_on tip read_tip get_ref commit
    seal transaction set_ref insert_commit known put_prompt ref_beq hash commit_hash hex
    content_preimage commit_preimage fields_preimage join digest copies write_slots read_slots
    unseal decrypt cut_prefix uncover with_columns slots_of commit_stored without_entry
test_publish = refl

test_quiet : published.store.io ≡ []
unfolding publish_prompt guard authorized may_write equal prompt contains branch_or get statement
    read_prompt decode_prompt Assoc.get Assoc.set head_change commit_on tip read_tip get_ref commit
    seal transaction set_ref insert_commit known put_prompt ref_beq hash commit_hash hex
    content_preimage commit_preimage fields_preimage join digest copies write_slots read_slots
    unseal decrypt cut_prefix uncover with_columns slots_of commit_stored without_entry
test_quiet = refl

test_served : read_prompt toy uri_a published.store.db ≡ ok served
unfolding publish_prompt guard authorized may_write equal prompt contains branch_or get statement
    read_prompt decode_prompt Assoc.get Assoc.set head_change commit_on tip read_tip get_ref commit
    seal transaction set_ref insert_commit known put_prompt ref_beq hash commit_hash hex
    content_preimage commit_preimage fields_preimage join digest copies write_slots read_slots
    unseal decrypt cut_prefix uncover with_columns slots_of commit_stored without_entry
test_served = refl

test_trunk : branch_or [] ≡ default_branch
unfolding branch_or equal
test_trunk = refl

test_reader : authorized reader uri_a ≡ true
unfolding authorized equal
test_reader = refl

test_admin : authorized admin uri_a ≡ true
unfolding authorized equal
test_admin = refl

nothing_served :
    (p : Prompt)
    → read_prompt toy uri_a fresh_node.db ≡ ok p
    → p.version_hash ≢ hash toy text_a slots_a
unfolding read_prompt Assoc.get
nothing_served p e = absurd cc

publish_prompt-get_prompt_example :
    (get_prompt toy hundredths wiring reader uri_a [] published).0
    ≡ ok (record {
      uri = uri_a;
      template = text_a;
      slots = slots_a;
      version_hash = hash toy text_a slots_a;
      commit_hash = [];
    })
publish_prompt-get_prompt_example =
    publish_prompt-get_prompt toy hundredths wiring toy_laws admin reader uri_a text_a slots_a [] []
      (hash toy text_a slots_a) started (((λ e. cc), tt), tt) test_trunk nothing_served test_publish
      test_quiet test_reader

publish_prompt-publish_prompt_example :
    publish_prompt toy hundredths wiring admin uri_a text_a slots_a []
      (codes "again")
      (at_time 9 published)
    ≡ (ok (hash toy text_a slots_a), at_time 9 published)
publish_prompt-publish_prompt_example =
    publish_prompt-publish_prompt toy hundredths wiring toy_laws admin uri_a text_a slots_a [] []
      (codes "again") (hash toy text_a slots_a) 9 started (((λ e. cc), tt), tt) test_trunk
      test_publish test_quiet

abbrev answer : Response
answer = record {
  uri = uri_a;
  template = text_a;
  slots = slots_a;
  version_hash = hash toy text_a slots_a;
  commit_hash = [];
}

abbrev requests : List (ℕ × Ctx × Request)
requests = (8, admin, publish uri_a text_a slots_a [] []) ∷ []

nothing_cached : (now : ℕ) (u : Str) → cached now u started.cache ≡ none
unfolding cached Cache.get fresh Assoc.get
nothing_cached now u = refl

test_answer :
    (get_prompt toy hundredths wiring reader uri_a []
      (at_time 9 (serve_all toy hundredths wiring sql requests started))).0
    ≡ ok answer
unfolding publish_prompt guard authorized may_write equal prompt contains branch_or get statement
    read_prompt decode_prompt Assoc.get Assoc.set head_change commit_on tip read_tip get_ref commit
    seal transaction set_ref insert_commit known put_prompt ref_beq hash commit_hash hex
    content_preimage commit_preimage fields_preimage join digest copies write_slots read_slots
    unseal decrypt cut_prefix uncover with_columns slots_of commit_stored without_entry serve_all
    handle get_prompt cached_or_head cached serve_head serve_valid respond Cache.get fresh
    Assoc.remove Cache.invalidate
test_answer = refl

get_prompt-IsValid_example : prompt answer.uri answer.template answer.slots ≡ none
get_prompt-IsValid_example =
    get_prompt-IsValid toy hundredths wiring sql requests started 9 reader uri_a [] answer
      nothing_cached test_answer

get_prompt-respond_example :
    (p : Prompt) × (read_prompt toy uri_a
        (serve_all toy hundredths wiring sql requests started).store.db
      ≡ ok p)
    × (answer ≡ respond p)
get_prompt-respond_example =
    get_prompt-respond toy hundredths wiring sql requests started 9 reader uri_a answer
      nothing_cached test_answer
