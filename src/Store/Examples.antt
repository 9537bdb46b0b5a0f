-- ===== src/Store/Examples.antt =====
-- The theorems about the store at concrete inputs, over small codecs and a toy cipher.
pub mod Codec
mod Open
use promptnet.Prelude.{
  ℕ, zero, suc, ◌+◌, ◌*◌, ◌/◌, ◌%◌, ◌≡◌, refl, ap, ◌∙◌, subst, Option, none, some, List, [], ◌∷◌,
  ◌++◌, Str, ◌==◌, nat_eq, if◌then◌else◌, arith, length, codes, equal,
}
use promptnet.Prelude.Keys.{contains}
use promptnet.Store.Commits.{put, commit_on, merge}
use promptnet.Store.Table.{default_branch, put_prompt}
use promptnet.Store.Hash.{hash}
use promptnet.Store.Env.{Aead, Env, AllText, EnvLaws}
use promptnet.Store.Exec.{ok, Db, State, PromptRow}
use promptnet.Store.Hash.Injective.{NoNul, Identity, IsPlain, commit_hash_injective}
use promptnet.Store.Hash.Valid.{hash-valid_injective}
use promptnet.Store.Integrity.{empty_db}
use promptnet.Store.Crypt.{seal, sealed, unseal}
use promptnet.Store.Crypt.RoundTrip.{unseal-seal}
use promptnet.Store.Keeps.{Ensures}
use promptnet.Store.Methods.{
  Stored, CommittedOn, Merged, put-Ensures, commit_on-Ensures, merge-Ensures,
}
use promptnet.Validate.{prompt}

unfoldable pub digest : ℕ → Str → ℕ
digest h [] = h
digest h (c ∷ s) = digest ((h * 31 + c) % 65536) s

-- slots that end with a NUL each
unfoldable pub write_slots : List Str → Str
write_slots [] = []
write_slots (s ∷ slots) = s ++ (0 ∷ write_slots slots)

unfoldable pub push : ℕ → List Str → List Str
push c [] = []
push c (s ∷ slots) = (c ∷ s) ∷ slots

unfoldable pub read_slots : Str → List Str
unfolding push
read_slots [] = []
read_slots (c ∷ s) = let rest = read_slots s in if c == 0 then [] ∷ rest else push c rest

read_slots-slot : (s r : Str) → NoNul s → read_slots (s ++ (0 ∷ r)) ≡ s ∷ read_slots r
unfolding read_slots push
read_slots-slot [] r h = ground arith
read_slots-slot (c ∷ s) r h = ground (arith, h.0, read_slots-slot s r h.1)

read_slots-write_slots : (l : List Str) → AllText NoNul l → read_slots (write_slots l) ≡ l
unfolding write_slots read_slots
read_slots-write_slots [] h = refl
read_slots-write_slots (s ∷ l) h =
    read_slots-slot s (write_slots l) h.0 ∙ ap (λ r. s ∷ r) (read_slots-write_slots l h.1)

unfoldable pub copies : ℕ → ℕ → Str
copies zero c = []
copies (suc n) c = c ∷ copies n c

length-copies : (n c : ℕ) → length (copies n c) ≡ n
unfolding copies
length-copies zero c = refl
length-copies (suc n) c = ap suc (length-copies n c)

unfoldable pub uncover : Str → Option Str
uncover [] = none
uncover (c ∷ s) = some s

abbrev pub toy_aead : Aead
toy_aead = record {
  nonce_size = 2;
  seal = λ nonce plain. 255 ∷ plain;
  unseal = λ nonce box. uncover box;
}

abbrev pub toy : Env
toy = record {
  sha256 = λ s. digest 7 s / 256 ∷ digest 7 s % 256 ∷ copies 30 0;
  marshal = write_slots;
  unmarshal = λ s. some (read_slots s);
  base64_encode = λ s. s;
  base64_decode = λ s. some s;
  random = copies;
  aead = some toy_aead;
}

pub toy_laws : EnvLaws toy NoNul
unfolding copies uncover
toy_laws = record {
  length-sha256 = λ s. refl;
  unmarshal-marshal = λ l h. ap some (read_slots-write_slots l h);
  decode-encode = λ s. refl;
  length-random = length-copies;
  unseal-seal = λ a nonce plain e n.
      let is : toy_aead ≡ a = ground (arith, e) in
      subst (λ (x : Aead). x.unseal nonce (x.seal nonce plain) ≡ some plain) is refl;
}

abbrev pub fresh_node : State
fresh_node = record { db = empty_db; io = []; draws = 0; clock = 7 }

abbrev pub uri_a : Str
uri_a = codes "promptnet://acme/a"

abbrev pub text_a : Str
text_a = codes "Hi {x}"

abbrev pub slots_a : List Str
slots_a = codes "x" ∷ []

abbrev boxed : Str
boxed = codes "enc1:" ++ (0 ∷ 0 ∷ 255 ∷ text_a)

test_seal : (seal toy text_a fresh_node).0 ≡ ok boxed
unfolding seal sealed copies
test_seal = refl

unseal-seal_example : unseal toy boxed ≡ ok text_a
unseal-seal_example = unseal-seal toy toy_laws text_a boxed fresh_node test_seal

abbrev Empty : Db → Type 0
Empty d = d ≡ fresh_node.db

put-Ensures_example : Ensures Empty Empty (put toy uri_a text_a slots_a) (λ _ d.
    (row : PromptRow) × Stored toy fresh_node.db uri_a text_a slots_a (hash toy text_a slots_a) row
    × (d ≡ put_prompt uri_a row fresh_node.db))
put-Ensures_example = put-Ensures toy fresh_node.db uri_a text_a slots_a

commit_on-Ensures_example :
    Ensures Empty Empty
      (commit_on toy uri_a default_branch text_a slots_a [] [])
      (CommittedOn toy fresh_node.db uri_a default_branch text_a slots_a [] [])
commit_on-Ensures_example =
    commit_on-Ensures toy fresh_node.db uri_a default_branch text_a slots_a [] []

merge-Ensures_example :
    Ensures Empty Empty
      (merge toy uri_a default_branch (codes "dev") [] [])
      (Merged toy fresh_node.db uri_a default_branch (codes "dev") [] [])
merge-Ensures_example = merge-Ensures toy fresh_node.db uri_a default_branch (codes "dev") [] []

pub test_valid : prompt uri_a text_a slots_a ≡ none
unfolding prompt contains equal
test_valid = refl

abbrev plain : Identity
plain = record { version_hash = text_a; parent = []; parent2 = []; author = []; message = [] }

plain-IsPlain : IsPlain plain
plain-IsPlain = record { version_hash = ground arith; parent = tt; parent2 = tt; author = tt }

commit_hash_injective_example : plain ≡ plain
commit_hash_injective_example =
    commit_hash_injective toy plain plain plain-IsPlain plain-IsPlain (λ e. refl) refl

text_a-NoNul : NoNul text_a
text_a-NoNul = ground arith

hash-valid_injective_example : (text_a ≡ text_a) × (slots_a ≡ slots_a)
hash-valid_injective_example =
    hash-valid_injective toy uri_a uri_a text_a text_a slots_a slots_a test_valid test_valid
      text_a-NoNul text_a-NoNul (λ e. refl) refl
