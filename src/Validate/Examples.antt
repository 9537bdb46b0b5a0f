-- ===== src/Validate/Examples.antt =====
-- The theorems about validation at concrete prompts.
use promptnet.Prelude.{◌≡◌, ◌↔◌, refl, true, none, some, List, [], ◌∷◌, Str, codes, equal}
use promptnet.Prelude.Keys.{contains}
use promptnet.Validate.Accepts.{Accepted, prompt-iff-Accepted}
use promptnet.Validate.Defs.{Invalid, undeclared, placeholders, prompt}
use promptnet.Validate.Errors.{Explains, prompt-Explains}
use promptnet.Validate.Scan.{Occurs, placeholders-iff-Occurs}

abbrev uri : Str
uri = codes "promptnet://acme/a"

abbrev template : Str
template = codes "Hi {x}, {y}"

abbrev slots : List Str
slots = codes "x" ∷ []

abbrev missing : Invalid
missing = undeclared (codes "y" ∷ [])

test_missing : prompt uri template slots ≡ some missing
unfolding prompt contains equal
test_missing = refl

prompt-iff-Accepted_example : (prompt uri template slots ≡ none) ↔ Accepted uri template slots
prompt-iff-Accepted_example = prompt-iff-Accepted uri template slots

prompt-Explains_example : Explains uri template slots missing
prompt-Explains_example = prompt-Explains uri template slots missing test_missing

placeholders-iff-Occurs_example :
    (contains (placeholders template) (codes "y") ≡ true) ↔ Occurs (codes "y") template
placeholders-iff-Occurs_example = placeholders-iff-Occurs template (codes "y")
