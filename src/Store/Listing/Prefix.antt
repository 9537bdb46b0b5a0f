-- ===== src/Store/Listing/Prefix.antt =====
-- What `List` returns.
use promptnet.Prelude.{
  ℕ, ◌≡◌, refl, sym, ap, ◌∙◌, subst, Bool, true, false, ◌&&◌, List, [], ◌∷◌, ◌++◌, Str, ◌==◌,
  nat_eq, equal, equal_iff, arith, Bool-cases, map, inl, inr, codes, append_assoc,
}
use promptnet.Prelude.Keys.{contains}
use promptnet.Store.Exec.{ok, PromptRow, State, read_db, pure, ◌>>=◌, continue}
use promptnet.Store.Log.{statement_quiet}
use promptnet.Store.Listing.{
  escape_byte, escape_like, Token, literal, any_run, tokens, Matches, end, one, stop, more,
  NoAnyOne, keys, Sql, SqlLaws, Entry, select, entries, list,
}

-- strings.HasPrefix up to the database's equality of letters
unfoldable pub starts_like : (ℕ → ℕ → Bool) → Str → Str → Bool
starts_like same [] t = true
starts_like same (c ∷ p) [] = false
starts_like same (c ∷ p) (d ∷ t) = same c d && starts_like same p t

abbrev literals : Str → List Token
literals [] = any_run ∷ []
literals (c ∷ p) = literal c ∷ literals p

tokens_plain :
    (c : ℕ) (r : Str)
    → (c == b'\\') ≡ false
    → (c == b'%') ≡ false
    → (c == b'_') ≡ false
    → tokens (c ∷ r) ≡ literal c ∷ tokens r
unfolding tokens
tokens_plain c [] h₁ h₂ h₃ = rw (h₂, h₃) refl
tokens_plain c (d ∷ r) h₁ h₂ h₃ = rw (h₁, h₂, h₃) refl

tokens_escaped : (d : ℕ) (r : Str) → tokens (b'\\' ∷ d ∷ r) ≡ literal d ∷ tokens r
unfolding tokens
tokens_escaped d r = refl

tokens-escape_byte : (c : ℕ) (r : Str) → tokens (escape_byte c ++ r) ≡ literal c ∷ tokens r
unfolding escape_byte
tokens-escape_byte c r = elim (Bool-cases (c == b'\\')) [
  | inl h₁ ↦ rw h₁ (tokens_escaped b'\\' r ∙ ground arith)
  | inr n₁ ↦ elim (Bool-cases (c == b'%')) [
    | inl h₂ ↦ rw (n₁, h₂) (tokens_escaped b'%' r ∙ ground arith)
    | inr n₂ ↦ elim (Bool-cases (c == b'_')) [
      | inl h₃ ↦ rw (n₁, n₂, h₃) (tokens_escaped b'_' r ∙ ground arith)
      | inr n₃ ↦ rw (n₁, n₂, n₃) (tokens_plain c r n₁ n₂ n₃)
    ]
  ]
]

tokens-escape_like : (p : Str) → tokens (escape_like p ++ codes "%") ≡ literals p
unfolding escape_like
tokens-escape_like [] = unfold tokens in refl
tokens-escape_like (c ∷ p) =
    rw append_assoc (tokens-escape_byte c _ ∙ ap (◌∷◌ (literal c)) (tokens-escape_like p))

NoAnyOne-literals : (p : Str) → NoAnyOne (literals p)
NoAnyOne-literals [] = tt
NoAnyOne-literals (c ∷ p) = NoAnyOne-literals p

module _ (same : ℕ → ℕ → Bool) where
  Matches-any_run : (t : Str) → Matches same (any_run ∷ []) t
  Matches-any_run [] = stop end
  Matches-any_run (d ∷ t) = more (Matches-any_run t)

  Matches-starts : (p t : Str) → starts_like same p t ≡ true → Matches same (literals p) t
  unfolding starts_like
  Matches-starts [] t h = Matches-any_run t
  Matches-starts (c ∷ p) [] h = cc
  Matches-starts (c ∷ p) (d ∷ t) h = one (ground arith) (Matches-starts p t (ground arith))

  starts_like-Matches :
      {l : List Token} {t : Str} (p : Str)
      → Matches same l t
      → l ≡ literals p
      → starts_like same p t ≡ true
  unfolding starts_like
  starts_like-Matches [] m e = refl
  starts_like-Matches (c ∷ p) end e = cc
  starts_like-Matches (c ∷ p) (one h m) e = ground (arith, starts_like-Matches p m)
  starts_like-Matches (c ∷ p) (stop m) e = absurd cc
  starts_like-Matches (c ∷ p) (more m) e = absurd cc

select-contains :
    (p q : Str → Bool) (l : List (Str × PromptRow)) (u : Str)
    → ((t : Str) → p t ≡ q t)
    → contains (keys (select p l)) u ≡ (contains (keys l) u && q u)
unfolding select contains
select-contains p q [] u same = refl
select-contains p q ((k, row) ∷ l) u same = elim (Bool-cases (equal k u)) [
  | inl here ↦ ground (arith, same k, select-contains p q l u same, ap q ((equal_iff k u).0 here))
  | inr there ↦ ground (arith, select-contains p q l u same)
]

abbrev pub uris : List Entry → List Str
uris = map (λ e. e.uri)

uris-entries : (l : List (Str × PromptRow)) → uris (entries l) ≡ keys l
unfolding entries
uris-entries [] = refl
uris-entries ((u, row) ∷ l) = ap (◌∷◌ u) (uris-entries l)

same_truth : (x y : Bool) → (x ≡ true → y ≡ true) → (y ≡ true → x ≡ true) → x ≡ y
same_truth x y f g = ground arith

module _ (sql : Sql) (same : ℕ → ℕ → Bool) (laws : SqlLaws sql same) where
  like_prefix : (p t : Str) → sql.like (escape_like p ++ codes "%") t ≡ starts_like same p t
  like_prefix p t =
      let iff =
        laws.like_iff (escape_like p ++ codes "%") t
          (rw tokens-escape_like (NoAnyOne-literals p)) in
      same_truth _ _ (λ h. starts_like-Matches same p (iff.0 h) (tokens-escape_like p))
        (λ h.
          iff.1 (
            subst (λ l. Matches same l t) (sym (tokens-escape_like p)) (Matches-starts same p t h)))

  -- `List` returns exactly the prompts of the table whose URI starts with the prefix, every byte of
  -- the prefix taken literally, up to the letters that the database's LIKE holds equal. It changes
  -- nothing.
  pub list_prefix :
      (prefix : Str) (s : State)
      → s.io ≡ []
      → (out : List Entry) × (list sql prefix s ≡ (ok out, s))
        × ((u : Str)
            → contains (uris out) u ≡ (contains (keys s.db.prompts) u && starts_like same prefix u))
  unfolding list
  list_prefix prefix s e = (
    _,
    ap
        (λ x.
          continue x.0
            (λ _. read_db >>= λ db. pure (
              entries (
                sql.order_by_uri (select (sql.like (escape_like prefix ++ codes "%")) db.prompts))))
            x.1)
        (statement_quiet s e),
    λ u.
        ap (λ l. contains l u) (uris-entries _)
        ∙ laws.contains-order_by_uri _ u
        ∙ select-contains _ (starts_like same prefix) s.db.prompts u (like_prefix prefix),
  )
