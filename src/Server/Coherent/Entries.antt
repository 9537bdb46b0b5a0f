-- ===== src/Server/Coherent/Entries.antt =====
-- A cache whose entries are what the tables serve, and what keeps it so.
use promptnet.Prelude.{
  ℕ, ◌≡◌, ◌≢◌, refl, sym, ap, ◌∙◌, Bool, true, false, Option, none, some, Str, ◌==◌, str_eq, equal,
  equal_iff, if◌then◌else◌, arith, inl, inr, Bool-cases,
}
use promptnet.Server.Auth.{Reply, ok, err}
use promptnet.Server.Cache.{Response, TtlCache, get-put, get-invalidate}
use promptnet.Server.Handlers.{respond}
use promptnet.Server.Serve.{Node, Serve, continue, ◌>>◌, guard, cached, with_entry, without_entry}
use promptnet.Store.Env.{Env}
use promptnet.Store.Exec.{ok, Db}
use promptnet.Store.Moves.{Moves}
use promptnet.Store.Table.{Prompt, default_branch, read_prompt}

-- every entry that is served is the prompt that the tables serve
abbrev pub Coherent : Env → Option TtlCache → Db → Type 0
Coherent env cache db =
    (now : ℕ) (u : Str) (r : Response)
    → cached now u cache ≡ some r
    → (p : Prompt) × (read_prompt env u db ≡ ok p) × (r ≡ respond p)

abbrev pub Holds {ℓ} : {A : Type ℓ} → Env → Reply A × Node → Type 0
Holds env out = Coherent env out.1.cache out.1.store.db

module _ (env : Env) where
  pub Coherent-reads :
      (cache : Option TtlCache) (d e : Db)
      → ((j : Str) → read_prompt env j e ≡ read_prompt env j d)
      → Coherent env cache d
      → Coherent env cache e
  Coherent-reads cache d e same c now u r hit =
      let (p, at, is) = c now u r hit in (p, same u ∙ at, is)

  pub Coherent-without :
      (uri : Str) (cache : Option TtlCache) (d e : Db)
      → ((j : Str) → uri ≢ j → read_prompt env j e ≡ read_prompt env j d)
      → Coherent env cache d
      → Coherent env (without_entry uri cache) e
  unfolding without_entry cached
  Coherent-without uri none d e same c now u r hit = absurd (ground (arith, hit))
  Coherent-without uri (some m) d e same c now u r hit = elim (Bool-cases (equal uri u)) [
    | inl gone ↦ absurd (ground (arith, get-invalidate now uri u m, hit, gone))
    | inr other ↦
        let (p, at, is) = c now u r (ground (arith, get-invalidate now uri u m, hit, other)) in
        (p, same u (ground (arith, other, equal_iff uri u)) ∙ at, is)
  ]

  pub Coherent-with :
      (clock : ℕ) (uri : Str) (p : Prompt) (cache : Option TtlCache) (d : Db)
      → read_prompt env uri d ≡ ok p
      → Coherent env cache d
      → Coherent env (with_entry clock uri (respond p) cache) d
  unfolding with_entry cached
  Coherent-with clock uri p none d at c now u r hit = absurd (ground (arith, hit))
  Coherent-with clock uri p (some m) d at c now u r hit = elim (Bool-cases (equal uri u)) [
    | inl same ↦ (
      p,
      ap (λ x. read_prompt env x d) (sym ((equal_iff uri u).0 same)) ∙ at,
      ground (arith, get-put clock now uri u (respond p) m, hit, same),
    )
    | inr other ↦ c now u r (ground (arith, get-put clock now uri u (respond p) m, hit, other))
  ]

  pub Holds-continue {ℓ κ} :
      {A : Type ℓ} {B : Type κ} (r : Reply A × Node) (f : A → Serve B)
      → Holds env r
      → ((a : A) (s : Node) → r ≡ (ok a, s) → Holds env (r.0, s) → Holds env (f a s))
      → Holds env (continue r f)
  Holds-continue (ok a, s) f h k = k a s refl h
  Holds-continue (err c, s) f h k = h

  pub Holds-if {ℓ} :
      {A : Type ℓ} (b : Bool) (x y : Serve A) (s : Node)
      → (b ≡ true → Holds env (x s))
      → (b ≡ false → Holds env (y s))
      → Holds env ((if b then x else y) s)
  Holds-if true x y s h k = h refl
  Holds-if false x y s h k = k refl

  -- the guards change nothing
  pub Holds-guard {ℓ} :
      {A : Type ℓ} (b : Bool) (f : Serve A) (s : Node)
      → Coherent env s.cache s.store.db
      → Holds env (f s)
      → Holds env ((guard b >> f) s)
  unfolding guard
  Holds-guard true f s c h = h
  Holds-guard false f s c h = c

  -- a branch that has moved, with the entry dropped if it is the trunk
  pub Holds-moved {ℓ} :
      {A : Type ℓ} (uri branch : Str) (x y : Serve A) (s : Node) (d : Db)
      → Coherent env s.cache d
      → Moves env uri branch d s.store.db
      → (Coherent env (without_entry uri s.cache) s.store.db → Holds env (x s))
      → (Coherent env s.cache s.store.db → Holds env (y s))
      → Holds env ((if branch == default_branch then x else y) s)
  Holds-moved uri branch x y s d c moves h k =
      Holds-if (branch == default_branch) x y s
        (λ trunk. h (Coherent-without uri s.cache d s.store.db (λ j ne. moves j (inr ne)) c))
        (λ other. k (
          Coherent-reads s.cache d s.store.db
            (λ j. moves j (inl (ground (arith, other, equal_iff branch default_branch)))) c))
