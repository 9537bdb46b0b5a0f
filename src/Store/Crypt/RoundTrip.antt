-- ===== src/Store/Crypt/RoundTrip.antt =====
-- `open` reverses `seal`.
use promptnet.Prelude.{
  ◌≡◌, refl, subst, some, ◌++◌, Str, length, take_left, drop_left, length-append, arith,
  Option-cases, inl, inr,
}
use promptnet.Prelude.Text.{cut_prefix}
use promptnet.Store.Crypt.{enc_prefix, sealed, seal, decrypt, unseal}
use promptnet.Store.Env.{Env, EnvLaws, Aead}
use promptnet.Store.Exec.{ok, State}

cut_enc_prefix : (x : Str) → cut_prefix (enc_prefix ++ x) enc_prefix ≡ some x
unfolding cut_prefix
cut_enc_prefix x = refl

module _ (env : Env) {IsText : Str → Type 0} (laws : EnvLaws env IsText) where
  decrypt_seal :
      (a : Aead) (nonce plain : Str)
      → env.aead ≡ some a
      → length nonce ≡ a.nonce_size
      → decrypt env a (nonce ++ a.seal nonce plain) ≡ ok plain
  unfolding decrypt
  decrypt_seal a nonce plain on size =
      rw (← size, take_left, drop_left)
        (ground
          (arith, length-append nonce (a.seal nonce plain), laws.unseal-seal a nonce plain on size))

  unseal-sealed :
      (a : Aead) (nonce plain : Str)
      → env.aead ≡ some a
      → length nonce ≡ a.nonce_size
      → unseal env (sealed env a nonce plain) ≡ ok plain
  unfolding unseal sealed
  unseal-sealed a nonce plain on size =
      let ct = nonce ++ a.seal nonce plain in
      ground (
        arith,
        cut_enc_prefix (env.base64_encode ct),
        laws.decode-encode ct,
        decrypt_seal a nonce plain on size,
      )

  -- A column that `seal` wrote is read back by `open`, whether or not a key is configured.
  pub unseal-seal :
      (plain stored : Str) (s : State)
      → (seal env plain s).0 ≡ ok stored
      → unseal env stored ≡ ok plain
  unfolding seal
  unseal-seal plain stored s h = elim (Option-cases env.aead) [
    | inl off ↦ unfold unseal in ground arith
    | inr (a, on) ↦
        let is : sealed env a (env.random a.nonce_size s.draws) plain ≡ stored = ground arith in
        subst (λ x. unseal env x ≡ ok plain) is
          (unseal-sealed a _ plain on (laws.length-random a.nonce_size s.draws))
  ]
