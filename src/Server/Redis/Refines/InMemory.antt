-- ===== src/Server/Redis/Refines/InMemory.antt =====
-- The in-process cache keeps the contract.
use promptnet.Prelude.{
  ℕ, ◌+◌, ◌≤◌, ◌≡◌, ◌≢◌, refl, ◌∙◌, Option, none, some, Str, ◌==◌, nat_eq, str_eq, equal, equal_iff,
  if◌then◌else◌, arith, inl, inr, Bool-cases,
}
use promptnet.Prelude.Assoc
use promptnet.Prelude.Assoc.{get-set, get-remove}
use promptnet.Server.Cache
use promptnet.Server.Cache.{Response, CacheEntry, TtlCache, fresh}
use promptnet.Server.Contract.{IsCache, Contract, IsCache-Contract}
use promptnet.Server.Redis.{mem_ops, new_mem_cache}

abbrev Fresh : ℕ → ℕ → Str → Response → TtlCache → Type 0
Fresh ttl t uri hit c = Assoc.get uri c.m ≡ some (record { resp = hit; expiry = t + ttl })

fresh_some :
    (now : ℕ) (o : Option CacheEntry) (hit : Response)
    → fresh now o ≡ some hit
    → (e : CacheEntry) × (o ≡ some e) × (e.resp ≡ hit) × (now ≤ e.expiry)
unfolding fresh
fresh_some now none hit e = absurd cc
fresh_some now (some x) hit e = (x, refl, ground (arith, e), ground (arith, e))

-- entries expire a TTL behind their time
abbrev TtlFits : ℕ → TtlCache → Type 0
TtlFits ttl c =
    (c.ttl ≡ ttl)
    × ((uri : Str) (e : CacheEntry) → Assoc.get uri c.m ≡ some e → (t : ℕ) × (e.expiry ≡ t + ttl))

module _ (ttl : ℕ) where
  get-put_at :
      (now : ℕ) (uri j : Str) (resp : Response) (c : TtlCache)
      → Assoc.get j (Cache.put now uri resp c).m ≡ (
          if uri == j then some (record { resp = resp; expiry = now + c.ttl }) else Assoc.get j c.m)
  unfolding Cache.put
  get-put_at now uri j resp c = get-set uri j (record { resp = resp; expiry = now + c.ttl }) c.m

  ttl-put :
      (now : ℕ) (uri : Str) (resp : Response) (c : TtlCache)
      → (Cache.put now uri resp c).ttl ≡ c.ttl
  unfolding Cache.put
  ttl-put now uri resp c = refl

  get-invalidate_at :
      (uri j : Str) (c : TtlCache)
      → Assoc.get j (Cache.invalidate uri c).m ≡ (if uri == j then none else Assoc.get j c.m)
  unfolding Cache.invalidate
  get-invalidate_at uri j c = get-remove uri j c.m

  ttl-invalidate : (uri : Str) (c : TtlCache) → (Cache.invalidate uri c).ttl ≡ c.ttl
  unfolding Cache.invalidate
  ttl-invalidate uri c = refl

  mem-IsCache : IsCache mem_ops ttl
  unfolding Cache.get
  mem-IsCache = record {
    Fits = TtlFits ttl;
    Keeps = Fresh ttl;
    hits = λ now uri hit c f e.
        let (x, found, same, live) = fresh_some now (Assoc.get uri c.m) hit e in
        let (t, expires) = f.1 uri x found in
        (t, ground (arith, found, same, expires), ground (arith, live, expires));
    put-Fits = λ now uri resp c f. (
      ttl-put now uri resp c ∙ f.0,
      λ j e h. elim (Bool-cases (equal uri j)) [
        | inl same ↦ (now, ground (arith, get-put_at now uri j resp c, same, h, f.0))
        | inr other ↦ f.1 j e (ground (arith, get-put_at now uri j resp c, other, h))
      ],
    );
    put-Keeps = λ now t uri j resp hit c f k. elim (Bool-cases (equal uri j)) [
      | inl same ↦
          let new : Option CacheEntry = some (record { resp = resp; expiry = now + c.ttl }) in
          let old : Option CacheEntry = some (record { resp = hit; expiry = t + ttl }) in
          let is : new ≡ old = ground (arith, get-put_at now uri j resp c, same, k) in
          inl (ground (arith, is, f.0), (equal_iff uri j).0 same, ground (arith, is))
      | inr other ↦ inr (ground (arith, get-put_at now uri j resp c, other, k))
    ];
    invalidate-Fits = λ now uri c f. (
      ttl-invalidate uri c ∙ f.0,
      λ j e h. elim (Bool-cases (equal uri j)) [
        | inl same ↦ absurd (ground (arith, get-invalidate_at uri j c, same, h))
        | inr other ↦ f.1 j e (ground (arith, get-invalidate_at uri j c, other, h))
      ],
    );
    invalidate-Keeps = λ now t uri j hit c k. ground (arith, get-invalidate_at uri j c, k);
  }

  pub mem-Contract : ttl ≢ 0 → Contract mem_ops ttl (λ c. new_mem_cache ttl ≡ some c)
  unfolding new_mem_cache Assoc.get mem-IsCache
  mem-Contract positive =
      IsCache-Contract mem_ops ttl mem-IsCache (λ c. new_mem_cache ttl ≡ some c)
        (λ c e. (ground (arith, e, positive), λ uri x h. absurd (ground (arith, e, positive, h))))
        (λ c t uri hit e k. ground (arith, e, positive, k))
