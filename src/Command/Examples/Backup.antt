-- ===== src/Command/Examples/Backup.antt =====
-- The backup of a store at a concrete one.
use promptnet.Prelude.{
  ℕ, ◌≡◌, refl, sym, ap, subst, ◌∙◌, List, [], ◌∷◌, ◌++◌, Str, codes, equal, arith, inl, inr,
  nat_eq, equal_iff, Bool-cases, str_eq,
}
use promptnet.Prelude.Assoc
use promptnet.Prelude.Assoc.{NoTwice}
use promptnet.Prelude.Text.{cut_prefix, join}
use promptnet.Command.Prompts.{Decoded, eof, bad, value, Json, backup, restore, restored}
use promptnet.Command.Prompts.Puts.Writes.{prompt_of}
use promptnet.Command.Prompts.Restores.{Copied, restore-backup}
use promptnet.Command.Prompts.Restores.Rows.{TextPrompt, JsonLaws, OrderLaws}
use promptnet.Store.Integrity.{later-IsSound}
use promptnet.Store.Listing.{Sql}
use promptnet.Store.Calls.{run, Call, put_prompt_at, run_all}
use promptnet.Store.Exec.{statement, State, PromptRow, Db, ok}
use promptnet.Store.Hash.{hash, hex, hex_digit, content_preimage}
use promptnet.Store.Hash.Injective.{NoNul}
use promptnet.Store.Table.{Prompt, put_prompt, read_prompt, decode_prompt, with_columns, slots_of}
use promptnet.Store.Commits.{put}
use promptnet.Store.Crypt.{seal, sealed, unseal, decrypt}
use promptnet.Store.Examples.Codec.{put_list, get_list, get_list-put_list, put_list-append}
use promptnet.Store.Examples.{
  toy, toy_laws, copies, write_slots, read_slots, uncover, digest, fresh_node, uri_a, text_a,
  slots_a,
}

abbrev pub sql : Sql
sql = record { like = λ p t. equal p t; order_by_uri = λ l. l }

-- a prompt as a list of strings
abbrev from_strings : List Str × Str → Decoded
from_strings (u ∷ t ∷ v ∷ slots, rest) =
    value (record { uri = u; template = t; slots = slots; version_hash = v }) rest
from_strings (_, rest) = bad

unfoldable decode_prompt_list : Str → Decoded
decode_prompt_list [] = eof
decode_prompt_list (n ∷ s) = from_strings (get_list (n ∷ s))

abbrev json : Json
json = record {
  encode = λ p. put_list (p.uri ∷ p.template ∷ p.version_hash ∷ p.slots) [];
  decode = decode_prompt_list;
}

json_laws : JsonLaws json NoNul
unfolding decode_prompt_list
json_laws = record {
  decode-encode = λ p rest text.
      let l = p.uri ∷ p.template ∷ p.version_hash ∷ p.slots in
      (
        rest,
        ap decode_prompt_list (put_list-append l rest)
            ∙ (unfold put_list in ap from_strings (get_list-put_list l rest)),
        refl,
      );
  decode-nil = refl;
  encode-positive = λ p. unfold put_list in omega arith;
}

order_laws : OrderLaws sql
order_laws = record { get-order_by_uri = λ l u h. refl; order_by_uri-NoTwice = λ l h. h }

abbrev puts : List Call
puts = put_prompt_at uri_a text_a slots_a ∷ []

abbrev source : State
source = run_all toy puts fresh_node

abbrev row_a : PromptRow
row_a = record {
  template = codes "enc1:" ++ (0 ∷ 0 ∷ 255 ∷ text_a);
  slots = codes "enc1:" ++ (1 ∷ 1 ∷ 255 ∷ (codes "x" ++ (0 ∷ [])));
  version_hash = hash toy text_a slots_a;
}

abbrev source_db : Db
source_db = record { prompts = (uri_a, row_a) ∷ []; commits = []; refs = [] }

test_source : source.db ≡ source_db
unfolding run_all run put seal sealed put_prompt Assoc.set copies write_slots statement
test_source = refl

test_quiet : source.io ≡ []
unfolding run_all run put seal sealed put_prompt Assoc.set copies write_slots statement
test_quiet = refl

abbrev prompt_a : Prompt
prompt_a = prompt_of toy uri_a text_a slots_a

prompt_a-TextPrompt : TextPrompt NoNul prompt_a
unfolding hash hex hex_digit digest content_preimage join copies
prompt_a-TextPrompt = record {
  uri = ground arith;
  template = ground arith;
  slots = ground arith;
  version_hash = ground arith;
}

test_read : read_prompt toy uri_a source_db ≡ ok prompt_a
unfolding read_prompt Assoc.get decode_prompt with_columns slots_of unseal decrypt cut_prefix
    uncover read_slots equal
test_read = refl

source_text : (u : Str) (p : Prompt) → read_prompt toy u source_db ≡ ok p → TextPrompt NoNul p
unfolding read_prompt Assoc.get
source_text u p e = elim (Bool-cases (equal uri_a u)) [
  | inl same ↦
      let both : ok prompt_a ≡ ok p =
        sym test_read ∙ ap (λ x. read_prompt toy x source_db) ((equal_iff uri_a u).0 same) ∙ e in
      let is : prompt_a ≡ p = ground (arith, both) in
      subst (TextPrompt NoNul) is prompt_a-TextPrompt
  | inr other ↦ absurd (ground (arith, e, other))
]

source_once : NoTwice source_db.prompts
unfolding Assoc.get
source_once = (refl, tt)

restore-backup_example :
    (input : Str) × (n : ℕ) × ((backup toy sql json source).0 ≡ ok input)
    × ((restore toy json input fresh_node).0 ≡ restored n)
    × Copied toy toy source.db fresh_node.db (restore toy json input fresh_node).1.db
restore-backup_example =
    restore-backup toy toy toy_laws toy_laws sql order_laws json json_laws source fresh_node
      test_quiet refl (later-IsSound toy toy_laws puts fresh_node refl ((((λ e. cc), tt), tt), tt))
      (subst (λ (d : Db). NoTwice d.prompts) (sym test_source) source_once)
      (subst (λ d. (u : Str) (p : Prompt) → read_prompt toy u d ≡ ok p → TextPrompt NoNul p)
        (sym test_source) source_text)
      (λ t slots. refl)
