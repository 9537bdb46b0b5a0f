-- ===== src/Command/Examples.antt =====
-- The theorems about the server command at concrete inputs.
mod Diff
mod Backup
use promptnet.Prelude.{
  ℕ, ◌≡◌, refl, true, false, Option, none, some, [], ◌∷◌, ◌++◌, Str, codes, equal, arith, inl, inr,
  ◌⊎◌, nat_eq, ◌==◌, not, ◌-◌, if◌then◌else◌, str_eq,
}
use promptnet.Prelude.Assoc
use promptnet.Prelude.Text.{
  cut_prefix, before_byte, split, trim_space, is_blank, fields, has_prefix,
}
use promptnet.Prelude.Keys.{contains}
use promptnet.Command.Guarded.{Refused, ungranted-Refused}
use promptnet.Command.Prompts.{seed_demo, put_command}
use promptnet.Command.Prompts.Puts.{Ends, put_command-Ends}
use promptnet.Command.Prompts.Seeds.{Seeds, seed_demo-Seeds}
use promptnet.Command.Setup.{Setup, init_cmd}
use promptnet.Command.Setup.Opens.{AllHex, OpensServer, init_cmd-OpensServer}
use promptnet.Command.Tokens.{Times, load_tokens, load_trimmed, read_field}
use promptnet.Command.Tokens.Loads.{AnyGrants}
use promptnet.Server.Auth.{Token}
use promptnet.Server.Auth.Tokens.{bearer}
use promptnet.Server.Chain.{Rate, Limit, Arrival, Gate, serve_request}
use promptnet.Server.Guards.{mutates}
use promptnet.Server.Handlers.{Wiring}
use promptnet.Server.Requests.{publish}
use promptnet.Semdiff.Examples.{hundredths, lengths}
use promptnet.Store.Hash
use promptnet.Store.Hash.{hex}
use promptnet.Store.Examples.{toy, toy_laws, fresh_node, uri_a, text_a, slots_a}
use promptnet.Command.Examples.Backup.{sql}

abbrev times : Times
times = record { date = λ s. none; rfc3339 = λ s. none }

-- the user name and the host of a URL with both
unfoldable behind : ℕ → Str → Str
behind b [] = []
behind b (c ∷ s) =
    let rest = behind b s in elim (equal (c ∷ []) (b ∷ [])) [ true ↦ s | false ↦ rest ]

abbrev user_and_host : Option Str → Option (Str × Str)
user_and_host none = none
user_and_host (some s) = some (behind b'@' s, before_byte b'@' s)

abbrev toy_parse : Str → Option (Str × Str)
toy_parse raw = user_and_host (cut_prefix raw (codes "promptnet://"))

before_at : (token rest : Str) → AllHex token → before_byte b'@' (token ++ (b'@' ∷ rest)) ≡ token
unfolding before_byte
before_at [] rest h = refl
before_at (c ∷ token) rest h = ground (arith, h.0, before_at token rest h.1)

behind_at : (token rest : Str) → AllHex token → behind b'@' (token ++ (b'@' ∷ rest)) ≡ rest
unfolding behind equal
behind_at [] rest h = refl
behind_at (c ∷ token) rest h = ground (arith, h.0, behind_at token rest h.1)

abbrev host : Str
host = codes "localhost:8443"

toy_parse-ParsesUrl :
    (token : Str)
    → AllHex token
    → toy_parse (codes "promptnet://" ++ (token ++ (codes "@" ++ host))) ≡ some (host, token)
unfolding cut_prefix
toy_parse-ParsesUrl token h = ground (arith, before_at token host h, behind_at token host h)

abbrev setup : Setup
setup = record { file = codes "0a rw\n"; url = codes "promptnet://0a@localhost:8443" }

test_init : init_cmd host false false (some (10 ∷ [])) true ≡ some setup
unfolding init_cmd Hash.hex
test_init = refl

init_cmd-OpensServer_example :
    ((false ≡ false) ⊎ (false ≡ true)) × OpensServer times toy_parse host setup
init_cmd-OpensServer_example =
    init_cmd-OpensServer times toy_parse b'l' (codes "ocalhost:8443") false false true 10 [] setup
      toy_parse-ParsesUrl (ground arith, tt) test_init

put_command-Ends_example :
    Ends toy toy_laws hundredths lengths 60 false uri_a text_a slots_a fresh_node.db
      (put_command toy hundredths lengths 60 false uri_a text_a slots_a fresh_node)
put_command-Ends_example =
    put_command-Ends toy toy_laws hundredths lengths 60 false uri_a text_a slots_a fresh_node
      (((λ e. cc), tt), tt)

seed_demo-Seeds_example : Seeds toy fresh_node (seed_demo toy fresh_node)
seed_demo-Seeds_example = seed_demo-Seeds toy toy_laws (ground arith) fresh_node refl

abbrev rate : Rate
rate = record {
  Rps = ℕ;
  Limiter = ℕ;
  positive = λ r. not (r == 0);
  floor = λ r. r;
  new_limiter = λ r burst. burst;
  allow = λ now left. if left == 0 then (false, 0) else (true, left - 1);
}

abbrev limit : Limit rate
limit = record { rps = 2; burst = 0 }

abbrev arrival : Arrival rate
arrival = record {
  now = 9;
  header = some (bearer (codes "k"));
  request = publish uri_a text_a slots_a [] [];
}

abbrev gate : Gate rate
gate = record {
  node = record { store = fresh_node; cache = none; events = [] };
  limiters = [];
  counted = [];
  audits = [];
}

abbrev wiring : Wiring hundredths
wiring = record { embedder = some lengths; pf = 60; notifier = true }

abbrev tokens_text : Str
tokens_text = codes "# readers\nk acme\n"

abbrev reader : Token
reader = record { org = codes "acme"; expires = 0; write = false }

test_load : load_tokens times [] (codes "f") (some tokens_text) ≡ some ((codes "k", reader) ∷ [])
unfolding load_tokens split load_trimmed equal trim_space is_blank has_prefix fields read_field
    Assoc.set
test_load = refl

test_no_grant : ¬ AnyGrants (codes "k") (split tokens_text b'\n')
unfolding split fields trim_space is_blank contains equal
test_no_grant (inl (rest, e, h)) = ground (arith, e)
test_no_grant (inr (inl (rest, e, h))) = ground (arith, e, h)
test_no_grant (inr (inr (inl (rest, e, h)))) = ground (arith, e)
test_no_grant (inr (inr (inr x))) = elim x [ ]

ungranted-Refused_example :
    Refused rate gate
      (serve_request rate toy sql hundredths wiring ((codes "k", reader) ∷ []) limit arrival gate)
ungranted-Refused_example =
    ungranted-Refused rate toy sql hundredths wiring times [] tokens_text b'f' []
      (codes "k", reader) [] limit arrival (codes "k") gate test_load refl (λ e. cc) test_no_grant
      (unfold mutates in refl)
