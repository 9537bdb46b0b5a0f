-- ===== src/Server/Auth/Tokens.antt =====
-- Which requests the interceptor admits.
use promptnet.Prelude.{
  ℕ, ◌≤◌, ◌≡◌, ◌↔◌, refl, sym, ap, ◌∙◌, Option, none, some, List, [], ◌∷◌, ◌++◌, Str, nat_eq,
  str_eq, equal, equal_iff, codes, arith, ◌⊎◌, inl, inr, Bool-cases,
}
use promptnet.Prelude.Assoc
use promptnet.Server.Auth.{ok, Ctx, Token, match_token, admit, intercept}

abbrev pub bearer : Str → Str
bearer key = codes "Bearer " ++ key

-- no key twice, as in a Go map
abbrev pub IsMap : List (Str × Token) → Type 0
IsMap [] = Unit
IsMap ((key, tok) ∷ wants) = (Assoc.get key wants ≡ none) × IsMap wants

abbrev pub ctx_of : Token → Ctx
ctx_of tok = record { scope = some tok.org; write = some tok.write }

unfoldable over : Option Token → Option Token → Option Token
over none found = found
over (some tok) found = some tok

equal-bearer : (a b : Str) → equal (bearer a) (bearer b) ≡ equal a b
unfolding equal
equal-bearer a b = refl

match_token-get :
    (key : Str) (wants : List (Str × Token)) (found : Option Token)
    → IsMap wants
    → match_token (bearer key) wants found ≡ over (Assoc.get key wants) found
unfolding match_token over Assoc.get
match_token-get key [] found m = refl
match_token-get key ((k, tok) ∷ wants) found m =
    match_token-get key wants _ m.1 ∙ elim (Bool-cases (equal key k)) [
      | inl same ↦
          let absent : Assoc.get key wants ≡ none =
            ap (λ x. Assoc.get x wants) ((equal_iff key k).0 same) ∙ m.0 in
          ground (arith, equal-bearer key k, equal_iff key k, equal_iff k key, absent)
      | inr other ↦ ground (arith, equal-bearer key k, equal_iff key k, equal_iff k key)
    ]

match_token-inv :
    (got : Str) (wants : List (Str × Token)) (found : Option Token) (tok : Token)
    → match_token got wants found ≡ some tok
    → (found ≡ some tok) ⊎ ((key : Str) × (got ≡ bearer key))
unfolding match_token
match_token-inv got [] found tok e = inl e
match_token-inv got ((k, t) ∷ wants) found tok e = elim (Bool-cases (equal got (bearer k))) [
  | inl same ↦ inr (k, (equal_iff got (bearer k)).0 same)
  | inr other ↦ elim (match_token-inv got wants _ tok e) [
    | inl f ↦ inl (ground (arith, f, other))
    | inr k ↦ inr k
  ]
]

admit_iff :
    (now : ℕ) (o : Option Token) (ctx : Ctx)
    → (admit now o ≡ ok ctx) ↔ (
        (tok : Token) × (o ≡ some tok)
        × ((tok.expires ≡ 0) ⊎ (now ≤ tok.expires))
        × (ctx ≡ ctx_of tok))
unfolding admit
admit_iff now none ctx = ground arith
admit_iff now (some tok) ctx =
    ((λ e. (tok, refl, ground (arith, e), ground (arith, e))), λ p. ground (arith, p.1, p.2, p.3))

-- A header that opens the service to a request: it names a token of the map that has not expired.
pub record Opens (tokens : List (Str × Token)) (now : ℕ) (header : Option Str) (ctx : Ctx)
    : Type 0 where
  pub key : Str
  pub tok : Token
  pub sent : header ≡ some (bearer key)
  pub issued : Assoc.get key tokens ≡ some tok
  pub lasts : (tok.expires ≡ 0) ⊎ (now ≤ tok.expires)
  pub gives : ctx ≡ ctx_of tok

nothing_sent : (wants : List (Str × Token)) → match_token [] wants none ≡ none
unfolding match_token equal
nothing_sent [] = refl
nothing_sent (w ∷ wants) = nothing_sent wants

over-none : (o : Option Token) → over o none ≡ o
unfolding over
over-none none = refl
over-none (some tok) = refl

match_token-bearer :
    (got key : Str) (wants : List (Str × Token))
    → IsMap wants
    → got ≡ bearer key
    → match_token got wants none ≡ Assoc.get key wants
match_token-bearer got key wants m e =
    ap (λ g. match_token g wants none) e
    ∙ match_token-get key wants none m
    ∙ over-none (Assoc.get key wants)

-- With tokens configured, a request reaches the handlers exactly if it sends "Bearer " and a token
-- that the map holds and that has not expired, and the context carries the org and the write
-- capability of that token.
pub intercept-iff-Opens :
    (w : Str × Token) (wants : List (Str × Token)) (now : ℕ) (header : Option Str) (ctx : Ctx)
    → IsMap (w ∷ wants)
    → (intercept (w ∷ wants) now header ≡ ok ctx) ↔ Opens (w ∷ wants) now header ctx
unfolding intercept
intercept-iff-Opens w wants now none ctx m = (
  (λ e.
      let a = (admit_iff now (match_token [] (w ∷ wants) none) ctx).0 e in
      absurd (ground (arith, a.1, nothing_sent (w ∷ wants)))),
  λ o. absurd (ground (arith, o.sent)),
)
intercept-iff-Opens w wants now (some got) ctx m = (
  (λ e.
      let a = (admit_iff now (match_token got (w ∷ wants) none) ctx).0 e in
      elim (match_token-inv got (w ∷ wants) none a.0 a.1) [
        | inl f ↦ absurd (ground (arith, f))
        | inr (key, q) ↦ record {
          key = key;
          tok = a.0;
          sent = ap some q;
          issued = sym (match_token-bearer got key (w ∷ wants) m q) ∙ a.1;
          lasts = a.2;
          gives = a.3;
        }
      ]),
  λ o.
      let q : got ≡ bearer o.key = ground (arith, o.sent) in
      (admit_iff now (match_token got (w ∷ wants) none) ctx).1
        (o.tok, match_token-bearer got o.key (w ∷ wants) m q ∙ o.issued, o.lasts, o.gives),
)
