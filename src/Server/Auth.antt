-- ===== src/Server/Auth.antt =====
-- `AuthInterceptor`, and what the handlers read of the context.
pub mod Tokens
use promptnet.Prelude.{
  ℕ, Bool, true, ◌&&◌, not, Option, none, some, List, [], ◌∷◌, ◌++◌, Str, ◌==◌, nat_eq, str_eq, ltb,
  if◌then◌else◌, codes,
}
use promptnet.Prelude.Text.{trim_prefix, before_byte}

-- the status codes that the service returns; `panic` is no code: it marks an index out of range
pub data Code : Type 0 where
  unauthenticated permission_denied invalid_argument not_found internal data_loss resource_exhausted
        panic :
      Code

pub data Reply {ℓ} (A : Type ℓ) : Type ℓ where
  ok : A → Reply A
  err : Code → Reply A

-- the two values of the context: absent where authentication is disabled
pub record Ctx : Type 0 where
  pub scope : Option Str
  pub write : Option Bool

-- `expires` is 0 for the zero time
pub record Token : Type 0 where
  pub org : Str
  pub expires : ℕ
  pub write : Bool

-- the loop over `wants`, without an early break
unfoldable pub match_token : Str → List (Str × Token) → Option Token → Option Token
match_token got [] found = found
match_token got ((key, tok) ∷ wants) found =
    match_token got wants (if got == (codes "Bearer " ++ key) then some tok else found)

-- what the interceptor does with the token that it found
unfoldable pub admit : ℕ → Option Token → Reply Ctx
admit now none = err unauthenticated
admit now (some tok) =
    if not (tok.expires == 0) && ltb tok.expires now
    then err unauthenticated
    else ok (record { scope = some tok.org; write = some tok.write })

-- the context that the handler gets; `header` is the first authorization value
unfoldable pub intercept : List (Str × Token) → ℕ → Option Str → Reply Ctx
unfolding match_token admit
intercept [] now header = ok (record { scope = none; write = none })
intercept (w ∷ wants) now none = admit now (match_token [] (w ∷ wants) none)
intercept (w ∷ wants) now (some got) = admit now (match_token got (w ∷ wants) none)

unfoldable pub org_of : Str → Str
unfolding trim_prefix before_byte
org_of uri = before_byte b'/' (trim_prefix uri (codes "promptnet://"))

unfoldable pub scope_value : Ctx → Str
scope_value ctx = elim ctx.scope [ none ↦ [] | some s ↦ s ]

-- whether `authorize` returns nil
unfoldable pub authorized : Ctx → Str → Bool
unfolding scope_value org_of
authorized ctx uri = if scope_value ctx == [] then true else scope_value ctx == org_of uri

-- whether `requireWrite` returns nil
unfoldable pub may_write : Ctx → Bool
may_write ctx = elim ctx.write [ none ↦ true | some w ↦ w ]

unfoldable pub scope_of : Ctx → Str
unfolding scope_value
scope_of ctx = if scope_value ctx == [] then codes "anonymous" else scope_value ctx
