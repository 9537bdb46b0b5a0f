-- ===== src/Command/Tokens/Loads.antt =====
-- What a tokens file that can be read gives: a map, whatever the file says, and no write capability
-- but to those whose line asks for it.
pub mod Trims
use promptnet.Prelude.{
  ℕ, ◌≡◌, ◌≢◌, refl, sym, ◌∙◌, subst, true, false, ◌||◌, none, some, List, [], ◌∷◌, Str, ◌==◌,
  str_eq, codes, arith, Bool-cases, Option-cases, ◌⊎◌, inl, inr, equal, equal_iff,
}
use promptnet.Prelude.Assoc
use promptnet.Prelude.Assoc.{get-set}
use promptnet.Prelude.Keys.{contains}
use promptnet.Prelude.Text.{has_prefix, split, trim_space, fields}
use promptnet.Command.Tokens.{
  Times, is_expiry, parse_expiry, with_expiry, read_field, read_fields, grant, load_fields,
  load_trimmed, load_lines, from_env, load_tokens,
}
use promptnet.Server.Auth.{Token}
use promptnet.Server.Auth.Tokens.{IsMap}
use promptnet.Command.Tokens.Loads.Trims.{fields_trimmed}

IsMap-set :
    (key : Str) (tok : Token) (m : List (Str × Token)) → IsMap m → IsMap (Assoc.set key tok m)
unfolding Assoc.set Assoc.get
IsMap-set key tok [] h = (refl, tt)
IsMap-set key tok ((k, t) ∷ m) h = elim (Bool-cases (equal k key)) [
  | inl same ↦ rw same (subst (λ x. Assoc.get x m ≡ none) ((equal_iff k key).0 same) h.0, h.1)
  | inr other ↦ rw other (
    get-set key k tok m ∙ ground (arith, equal_iff key k, equal_iff k key, h.0),
    IsMap-set key tok m h.1,
  )
]

-- a line gives the key the write capability
abbrev pub Grants : Str → Str → Type 0
Grants key line =
    (rest : List Str) × (fields (trim_space line) ≡ key ∷ rest)
    × (contains rest (codes "rw") ≡ true)

abbrev pub AnyGrants : Str → List Str → Type 0
AnyGrants key [] = ⊥
AnyGrants key (line ∷ lines) = Grants key line ⊎ AnyGrants key lines

-- a map without a key twice, whose tokens write only where they may
record Fits (May : Str → Type 0) (m : List (Str × Token)) : Type 0 where
  keys : IsMap m
  writes : (key : Str) (tok : Token) → Assoc.get key m ≡ some tok → tok.write ≡ true → May key

from_env-Fits : (env : Str) → Fits (λ k. (k ≡ env)) (from_env env)
unfolding from_env Assoc.get
from_env-Fits [] = record { keys = tt; writes = λ k t e w. absurd (ground (arith, e)) }
from_env-Fits (c ∷ env) = record {
  keys = (refl, tt);
  writes = λ k t e w. sym ((equal_iff (c ∷ env) k).0 (ground (arith, e)));
}

module _ (times : Times) where
  read_field_total : (f : Str) (tok : Token) → (t : Token) × (read_field times f tok ≡ some t)
  unfolding read_field is_expiry parse_expiry with_expiry
  read_field_total f tok = elim (Option-cases (read_field times f tok)) [
    | inl nothing ↦ absurd (ground arith)
    | inr found ↦ found
  ]

  read_field-write :
      (f : Str) (tok t : Token)
      → read_field times f tok ≡ some t
      → t.write ≡ true
      → (tok.write ≡ true) ⊎ (equal f (codes "rw") ≡ true)
  unfolding read_field is_expiry parse_expiry with_expiry
  read_field-write f tok t e w = ground (arith, e)

  read_fields_total :
      (fs : List Str) (tok : Token) → (t : Token) × (read_fields times fs tok ≡ some t)
  unfolding read_fields
  read_fields_total [] tok = (tok, refl)
  read_fields_total (f ∷ fs) tok =
      let (next, e) = read_field_total f tok in
      let (t, r) = read_fields_total fs next in (t, ground (arith, e, r))

  read_fields-write :
      (fs : List Str) (tok t : Token)
      → read_fields times fs tok ≡ some t
      → t.write ≡ true
      → (tok.write ≡ true) ⊎ (contains fs (codes "rw") ≡ true)
  unfolding read_fields contains
  read_fields-write [] tok t e w = inl (ground (arith, e, w))
  read_fields-write (f ∷ fs) tok t e w =
      let (next, step) = read_field_total f tok in
      elim (read_fields-write fs next t (ground (arith, e, step)) w) [
        | inl v ↦ elim (read_field-write f tok next step v) [
          | inl x ↦ inl x
          | inr x ↦ inr (ground (arith, x))
        ]
        | inr v ↦ inr (ground (arith, v))
      ]

  -- what one more entry needs
  Fits-set :
      (May More : Str → Type 0) (key : Str) (tok : Token) (m : List (Str × Token))
      → Fits May m
      → (tok.write ≡ true → More key)
      → Fits (λ k. May k ⊎ More k) (Assoc.set key tok m)
  Fits-set May More key tok m h ask = record {
    keys = IsMap-set key tok m h.keys;
    writes = λ k t e w. elim (Bool-cases (equal key k)) [
      | inl same ↦ inr (
          subst More ((equal_iff key k).0 same)
            (ask (ground (arith, get-set key k tok m, e, w, same))))
      | inr other ↦ inl (h.writes k t (ground (arith, get-set key k tok m, e, other)) w)
    ];
  }

  Fits-weaken :
      (May More : Str → Type 0) (m : List (Str × Token))
      → ((k : Str) → May k → More k)
      → Fits May m
      → Fits More m
  Fits-weaken May More m f h = record { keys = h.keys; writes = λ k t e w. f k (h.writes k t e w) }

  -- the fields of a line that is no comment
  load_fields-Fits :
      (May : Str → Type 0) (line : Str) (fs : List Str) (tokens : List (Str × Token))
      → fields (trim_space line) ≡ fs
      → fs ≢ []
      → Fits May tokens
      → (m : List (Str × Token)) × (load_fields times fs tokens ≡ some m)
        × Fits (λ k. May k ⊎ Grants k line) m
  unfolding load_fields grant
  load_fields-Fits May line [] tokens e ne h = absurd (ne refl)
  load_fields-Fits May line (key ∷ rest) tokens e ne h =
      let (tok, r) = read_fields_total rest (record { org = []; expires = 0; write = false }) in
      (
        Assoc.set key tok tokens,
        ground (arith, r),
        Fits-set May (λ k. Grants k line) key tok tokens h
            λ w. elim (read_fields-write rest _ tok r w) [
              | inl never ↦ absurd (ground (arith, never))
              | inr asked ↦ (rest, e, asked)
            ],
      )

  load_trimmed-Fits :
      (May : Str → Type 0) (line : Str) (tokens : List (Str × Token))
      → Fits May tokens
      → (m : List (Str × Token)) × (load_trimmed times (trim_space line) tokens ≡ some m)
        × Fits (λ k. May k ⊎ Grants k line) m
  unfolding load_trimmed
  load_trimmed-Fits May line tokens h =
      elim (Bool-cases ((trim_space line == []) || has_prefix (trim_space line) (codes "#"))) [
        | inl skip ↦ (tokens, ground (arith, skip), Fits-weaken May _ tokens (λ k x. inl x) h)
        | inr read ↦
            let (m, e, fits) =
              load_fields-Fits May line (fields (trim_space line)) tokens refl
                (fields_trimmed line
                  (λ e. absurd (ground (arith, read, equal_iff (trim_space line) []))))
                h in
            (m, ground (arith, read, e), fits)
      ]

  load_lines-Fits :
      (May : Str → Type 0) (lines : List Str) (tokens : List (Str × Token))
      → Fits May tokens
      → (m : List (Str × Token)) × (load_lines times lines tokens ≡ some m)
        × Fits (λ k. May k ⊎ AnyGrants k lines) m
  unfolding load_lines
  load_lines-Fits May [] tokens h = (tokens, refl, Fits-weaken May _ tokens (λ k x. inl x) h)
  load_lines-Fits May (line ∷ lines) tokens h =
      let (next, e, fits) = load_trimmed-Fits May line tokens h in
      let (m, r, all) = load_lines-Fits (λ k. May k ⊎ Grants k line) lines next fits in
      (
        m,
        ground (arith, e, r),
        Fits-weaken _ (λ k. May k ⊎ (Grants k line ⊎ AnyGrants k lines)) m
            (λ k x. elim x [
              | inl (inl a) ↦ inl a
              | inl (inr b) ↦ inr (inl b)
              | inr c ↦ inr (inr c)
            ])
            all,
      )

  -- A tokens file that can be read never stops the server, whatever it holds: each key is in the map
  -- once, and a key may write only if it is PROMPTNET_TOKEN or a line of the file begins with it and
  -- has the field `rw`.
  pub load_tokens-Fits :
      (env content : Str) (c : ℕ) (file : Str)
      → (m : List (Str × Token)) × (load_tokens times env (c ∷ file) (some content) ≡ some m)
        × IsMap m
        × ((key : Str) (tok : Token)
            → Assoc.get key m ≡ some tok
            → tok.write ≡ true
            → (key ≡ env) ⊎ AnyGrants key (split content b'\n'))
  unfolding load_tokens
  load_tokens-Fits env content c file =
      let (m, e, fits) =
        load_lines-Fits (λ k. k ≡ env) (split content b'\n') (from_env env) (from_env-Fits env) in
      (m, e, fits.keys, fits.writes)
