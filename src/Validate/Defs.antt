-- ===== src/Validate/Defs.antt =====
-- `Prompt`, with the matches of `placeholderRe`. The regular expression finds its matches from the
-- left, each as long as it can be, and goes on behind each.
use promptnet.Prelude.{
  ℕ, zero, suc, Bool, ◌&&◌, ◌||◌, Option, none, some, List, [], ◌∷◌, Str, length, leb, ◌==◌, nat_eq,
  if◌then◌else◌,
}
use promptnet.Prelude.Keys.{add_keys, add_key, without, sort}
use promptnet.Prelude.Text.{is_blank}

-- `\w`
unfoldable pub is_word : ℕ → Bool
is_word c =
    leb b'a' c && leb c b'z'
    || (leb b'A' c && leb c b'Z' || (leb b'0' c && leb c b'9' || c == b'_'))

-- `\w*` followed by a closing brace: the word
unfoldable pub word_then_brace : Str → Option Str
unfolding is_word
word_then_brace [] = none
word_then_brace (c ∷ s) =
    let rest = word_then_brace s in
    if c == b'}'
    then some []
    else if is_word c
    then elim rest [ none ↦ none | some w ↦ some (c ∷ w) ]
    else none

-- a match of `\{(\w+)\}` at the beginning of the text: its group
unfoldable pub match_at : Str → Option Str
unfolding word_then_brace
match_at [] = none
match_at (c ∷ s) =
    if c == b'{'
    then elim (word_then_brace s) [
      | none ↦ none
      | some w ↦ elim w [ [] ↦ none | d ∷ v ↦ some (d ∷ v) ]
    ]
    else none

-- FindAllStringSubmatch; the number counts the bytes of the last match that are still ahead
unfoldable pub matches_from : ℕ → Str → List Str
unfolding match_at
matches_from k [] = []
matches_from (suc k) (c ∷ s) = matches_from k s
matches_from zero (c ∷ s) = elim (match_at (c ∷ s)) [
  | none ↦ matches_from zero s
  | some w ↦ w ∷ matches_from (suc (length w)) s
]

unfoldable pub placeholders : Str → List Str
unfolding matches_from
placeholders = matches_from 0

pub data Invalid : Type 0 where
  uri_empty template_empty slot_empty : Invalid
  undeclared unused : List Str → Invalid

-- the loop over `slots`; `none` is its early return
unfoldable pub declare : List Str → List Str → Option (List Str)
unfolding add_key is_blank
declare [] declared = some declared
declare (s ∷ slots) declared =
    let rest = declare slots (add_key s declared) in if is_blank s then none else rest

-- the two loops over the maps, and the returns behind them
unfoldable pub compare_slots : List Str → List Str → Option Invalid
unfolding without sort
compare_slots found declared = elim (sort (without found declared)) [
  | x ∷ missing ↦ some (undeclared (x ∷ missing))
  | [] ↦ elim (sort (without declared found)) [ x ∷ extra ↦ some (unused (x ∷ extra)) | [] ↦ none ]
]

-- `none` is the error `nil`
unfoldable pub prompt : Str → Str → List Str → Option Invalid
unfolding declare compare_slots placeholders add_keys is_blank
prompt uri template slots =
    if is_blank uri
    then some uri_empty
    else if is_blank template
    then some template_empty
    else elim (declare slots []) [
      | none ↦ some slot_empty
      | some declared ↦ compare_slots (add_keys (placeholders template) []) declared
    ]
