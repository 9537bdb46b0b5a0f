-- ===== src/Command/Setup/Opens.antt =====
-- What `init` writes and prints opens the server that loads it.
use promptnet.Prelude.{
  ℕ, ◌/◌, ◌%◌, ◌<◌, ◌≤◌, ◌≡◌, ◌≢◌, refl, ap, ◌∙◌, Bool, true, false, Option, some, List, [], ◌∷◌,
  ◌++◌, Str, codes, arith, equal, equal_refl, ◌⊎◌, subst,
}
use promptnet.Prelude.Assoc
use promptnet.Prelude.Text.{split, trim_space, fields, has_prefix, add_head}
use promptnet.Prelude.Words.{AllVisible, two_words, trim_space-two_words, fields-two_words}
use promptnet.Command.Setup.{
  Setup, init_cmd, written, conn_url, host_or_local, env_host, token_of, bearer_of, auth_ctx,
  has_infix,
}
use promptnet.Command.Tokens.{
  Times, read_field, read_fields, grant, load_fields, load_trimmed, load_lines, load_tokens,
  from_env,
}
use promptnet.Server.Auth.{ok, Token, intercept, match_token, admit}
use promptnet.Server.Auth.Tokens.{bearer}
use promptnet.Store.Hash.{hex, hex_digit}

abbrev pub AllBytes : Str → Type 0
AllBytes [] = Unit
AllBytes (c ∷ s) = (c < 256) × AllBytes s

abbrev pub HexDigit : ℕ → Type 0
HexDigit c = ((b'0' ≤ c) × (c ≤ b'9')) ⊎ ((b'a' ≤ c) × (c ≤ b'f'))

abbrev pub AllHex : Str → Type 0
AllHex [] = Unit
AllHex (c ∷ s) = HexDigit c × AllHex s

hex_digit-HexDigit : (d : ℕ) → d < 16 → HexDigit (hex_digit d)
unfolding hex_digit
hex_digit-HexDigit d h = ground (arith, h)

hex-AllHex : (s : Str) → AllBytes s → AllHex (hex s)
unfolding hex
hex-AllHex [] h = tt
hex-AllHex (c ∷ s) h = (
  hex_digit-HexDigit (c / 16) (omega (arith, h.0)),
  (hex_digit-HexDigit (c % 16) (omega arith), hex-AllHex s h.1),
)

AllHex-AllVisible : (s : Str) → AllHex s → AllVisible s
AllHex-AllVisible [] h = tt
AllHex-AllVisible (c ∷ s) h = ((ground (arith, h.0), ground (arith, h.0)), AllHex-AllVisible s h.1)

last_line : split (codes " rw\n") b'\n' ≡ codes " rw" ∷ [] ∷ []
unfolding split add_head
last_line = refl

split-AllVisible :
    (s t : Str) (l : Str) (ls : List Str)
    → AllVisible s
    → split t b'\n' ≡ l ∷ ls
    → split (s ++ t) b'\n' ≡ (s ++ l) ∷ ls
unfolding split add_head
split-AllVisible [] t l ls v e = e
split-AllVisible (c ∷ s) t l ls v e = ground (arith, v.0.0, split-AllVisible s t l ls v.1 e)

abbrev admin_token : Token
admin_token = record { org = []; expires = 0; write = true }

module _ (times : Times) where
  read_fields-rw :
      read_fields times (codes "rw" ∷ []) (record { org = []; expires = 0; write = false })
      ≡ some admin_token
  unfolding read_fields read_field equal
  read_fields-rw = refl

  abbrev rw_word : AllVisible (codes "rw")
  rw_word = ((omega arith, omega arith), ((omega arith, omega arith), tt))

  load_fields-rw :
      (c : ℕ) (token : Str)
      → AllVisible (c ∷ token)
      → load_fields times (fields (two_words (c ∷ token) (codes "rw"))) []
        ≡ some ((c ∷ token, admin_token) ∷ [])
  unfolding load_fields grant Assoc.set
  load_fields-rw c token v =
      ap (λ l. load_fields times l []) (fields-two_words c token b'r' (codes "w") v rw_word)
      ∙ ap (λ o. grant times (c ∷ token) o []) read_fields-rw

  -- a line that grants a token the write capability
  load_trimmed-rw :
      (c : ℕ) (token : Str)
      → AllVisible (c ∷ token)
      → c ≢ b'#'
      → load_trimmed times (trim_space (two_words (c ∷ token) (codes "rw"))) []
        ≡ some ((c ∷ token, admin_token) ∷ [])
  unfolding load_trimmed has_prefix equal
  load_trimmed-rw c token v ne =
      ap (λ l. load_trimmed times l []) (trim_space-two_words c token b'r' (codes "w") v rw_word)
      ∙ ground (arith, ne, load_fields-rw c token v)

  blank_line : (m : List (Str × Token)) → load_lines times ([] ∷ []) m ≡ some m
  unfolding load_lines load_trimmed trim_space equal
  blank_line m = refl

  load_tokens-rw :
      (c f : ℕ) (token file : Str)
      → AllVisible (c ∷ token)
      → c ≢ b'#'
      → load_tokens times [] (f ∷ file) (some ((c ∷ token) ++ codes " rw\n"))
        ≡ some ((c ∷ token, admin_token) ∷ [])
  unfolding load_tokens from_env
  load_tokens-rw c f token file v ne =
      ap (λ ls. load_lines times ls [])
        (split-AllVisible (c ∷ token) (codes " rw\n") (codes " rw") ([] ∷ []) v last_line)
      ∙ (unfold load_lines in ground (arith, load_trimmed-rw c token v ne))
      ∙ blank_line _

-- url.Parse reads the user name and the host of a connection string whose token is hexadecimal.
abbrev pub ParsesUrl : (Str → Option (Str × Str)) → Str → Type 0
ParsesUrl parse addr =
    (token : Str)
    → AllHex token
    → parse (codes "promptnet://" ++ (token ++ (codes "@" ++ addr))) ≡ some (addr, token)

module _ (parse : Str → Option (Str × Str)) where
  conn_url-ParsesUrl :
      (addr token : Str)
      → ParsesUrl parse addr
      → AllHex token
      → conn_url parse (codes "promptnet://" ++ (token ++ (codes "@" ++ addr))) ≡ some (addr, token)
  unfolding conn_url has_infix has_prefix equal
  conn_url-ParsesUrl addr token law h = law token h

-- What a run of `init` leaves: the server that loads the file has one token, and the client that
-- is given the URL dials the address and is admitted at any time, for every org and to write.
pub record OpensServer (times : Times) (parse : Str → Option (Str × Str)) (addr : Str)
    (setup : Setup) : Type 0 where
  pub token : Str
  pub loads :
      (f : ℕ) (file : Str)
      → load_tokens times [] (f ∷ file) (some setup.file) ≡ some ((token, admin_token) ∷ [])
  pub dials : env_host parse setup.url ≡ some addr
  pub sends : auth_ctx parse [] setup.url ≡ some (some (bearer token))
  pub admits :
      (now : ℕ)
      → intercept ((token, admin_token) ∷ []) now (some (bearer token))
        ≡ ok (record { scope = some []; write = some true })

written-OpensServer :
    (times : Times) (parse : Str → Option (Str × Str)) (a : ℕ) (addr : Str) (c : ℕ) (token : Str)
    → ParsesUrl parse (a ∷ addr)
    → AllHex (c ∷ token)
    → OpensServer times parse (a ∷ addr) (written (c ∷ token) (a ∷ addr))
unfolding written env_host host_or_local auth_ctx token_of bearer_of intercept match_token admit
written-OpensServer times parse a addr c token law h =
    let at_url = conn_url-ParsesUrl parse (a ∷ addr) (c ∷ token) law h in
    record {
      token = c ∷ token;
      loads = λ f file.
          load_tokens-rw times c f token file (AllHex-AllVisible (c ∷ token) h)
            (λ e. ground (arith, h.0, e));
      dials = ap (host_or_local parse) at_url;
      sends = ap (λ u. bearer_of parse (token_of parse u)) at_url;
      admits = λ now. ground (arith, equal_refl (bearer (c ∷ token)));
    }

-- `init` refuses to overwrite a tokens file unless it is forced. Where it comes to write one, the
-- server that loads the file and the client that is given the printed URL fit: the client dials the
-- address, and its token is admitted at any time, for every org and to write.
pub init_cmd-OpensServer :
    (times : Times) (parse : Str → Option (Str × Str)) (a : ℕ) (addr : Str)
    (exists force writes : Bool) (r : ℕ) (random : Str) (setup : Setup)
    → ParsesUrl parse (a ∷ addr)
    → AllBytes (r ∷ random)
    → init_cmd (a ∷ addr) exists force (some (r ∷ random)) writes ≡ some setup
    → ((exists ≡ false) ⊎ (force ≡ true)) × OpensServer times parse (a ∷ addr) setup
unfolding init_cmd hex
init_cmd-OpensServer times parse a addr exists force writes r random setup law bytes e = (
  ground (arith, e),
  subst (OpensServer times parse (a ∷ addr)) (ground (arith, e)) (
      written-OpensServer times parse a addr _ (hex_digit (r % 16) ∷ hex random) law
        (hex-AllHex (r ∷ random) bytes)),
)
