-- ===== src/Server/Redis/Refines/InRedis.antt =====
-- The Redis cache keeps the contract.
use promptnet.Prelude.{
  ℕ, ◌+◌, ◌≤◌, ◌≡◌, ◌≢◌, refl, sym, ap, ◌∙◌, subst, Option, none, some, Str, ◌==◌, nat_eq, str_eq,
  if◌then◌else◌, arith, ◌⊎◌, inl, inr, Option-cases, drop,
}
use promptnet.Server.Cache.{Response}
use promptnet.Server.Contract.{IsCache, Contract, IsCache-Contract}
use promptnet.Server.Redis.{
  Redis, Proto, redis_key, unmarshal_found, redis_get, set_marshaled, redis_put, redis_invalidate,
  redis_ops,
}

pub record Held : Type 0 where
  pub value : Str
  pub expiry : Option ℕ

-- when a key that is set expires
abbrev pub expiry_of : ℕ → ℕ → Option ℕ
expiry_of now ttl = if ttl == 0 then none else some (now + ttl)

abbrev pub Live : ℕ → Option ℕ → Type 0
Live now none = Unit
Live now (some t) = now ≤ t

-- What Redis documents of GET, SET with an expiry, and DEL: a value that is read is held under the
-- key and has not expired, and a command that changes keys does its work or, where the server cannot
-- be reached, nothing.
pub record RedisLaws (redis : Redis) : Type 0 where
  pub held : redis.Server → Str → Option Held
  pub get-held :
      (now : ℕ) (k v : Str) (s : redis.Server)
      → redis.get now k s ≡ some v
      → (h : Held) × (held s k ≡ some h) × (h.value ≡ v) × Live now h.expiry
  pub held-set :
      (now : ℕ) (k v : Str) (ttl : ℕ) (j : Str) (s : redis.Server)
      → (held (redis.set now k v ttl s) j ≡ held s j)
        ⊎ ((k ≡ j)
            × (held (redis.set now k v ttl s) j
                ≡ some (record { value = v; expiry = expiry_of now ttl })))
  pub held-del :
      (now : ℕ) (k j : Str) (s : redis.Server)
      → (held (redis.del now k s) j ≡ held s j) ⊎ (held (redis.del now k s) j ≡ none)

-- what is marshaled is read back
abbrev pub ProtoLaws : Proto → Type 0
ProtoLaws proto = (r : Response) (b : Str) → proto.marshal r ≡ some b → proto.unmarshal b ≡ some r

redis_key-injective : (u v : Str) → redis_key u ≡ redis_key v → u ≡ v
unfolding redis_key
redis_key-injective u v e = ap (drop 16) e

module _ (redis : Redis) (proto : Proto) (laws : RedisLaws redis) (coded : ProtoLaws proto)
    (ttl : ℕ) (positive : ttl ≢ 0) where
  record HeldAt (t : ℕ) (uri : Str) (hit : Response) (s : redis.Server) : Type 0 where
    value : Str
    is_held : laws.held s (redis_key uri) ≡ some (record { value = value; expiry = some (t + ttl) })
    reads : proto.unmarshal value ≡ some hit

  -- every entry expires a TTL behind some time
  abbrev AllExpire : redis.Server → Type 0
  AllExpire s =
      (uri : Str) (h : Held)
      → laws.held s (redis_key uri) ≡ some h
      → (t : ℕ) × (h.expiry ≡ some (t + ttl))

  unmarshal_found-some :
      (o : Option Str) (hit : Response)
      → unmarshal_found redis proto o ≡ some hit
      → (b : Str) × (o ≡ some b) × (proto.unmarshal b ≡ some hit)
  unfolding unmarshal_found
  unmarshal_found-some none hit e = absurd cc
  unmarshal_found-some (some b) hit e = (b, refl, e)

  redis_get-HeldAt :
      (now : ℕ) (uri : Str) (hit : Response) (s : redis.Server)
      → AllExpire s
      → redis_get redis proto now uri s ≡ some hit
      → (t : ℕ) × HeldAt t uri hit s × (now ≤ t + ttl)
  unfolding redis_get
  redis_get-HeldAt now uri hit s all e =
      let (b, found, reads) = unmarshal_found-some (redis.get now (redis_key uri) s) hit e in
      let (h, kept, same, live) = laws.get-held now (redis_key uri) b s found in
      let (t, expires) = all uri h kept in
      (
        t,
        record {
          value = h.value;
          is_held = kept ∙ ap (λ x. some (record { value = h.value; expiry = x })) expires;
          reads = ap proto.unmarshal same ∙ reads;
        },
        subst (Live now) expires live,
      )

  expiry_positive : (now : ℕ) → expiry_of now ttl ≡ some (now + ttl)
  expiry_positive now = ground (arith, positive)

  -- the two ways of a `Put`
  held-redis_put :
      (now : ℕ) (uri j : Str) (resp : Response) (s : redis.Server)
      → (laws.held (redis_put redis proto ttl now uri resp s) (redis_key j)
          ≡ laws.held s (redis_key j))
        ⊎ ((uri ≡ j)
            × (b : Str) × (proto.marshal resp ≡ some b)
            × (laws.held (redis_put redis proto ttl now uri resp s) (redis_key j)
                ≡ some (record { value = b; expiry = some (now + ttl) })))
  unfolding redis_put set_marshaled
  held-redis_put now uri j resp s = elim (Option-cases (proto.marshal resp)) [
    | inl fails ↦ inl (ground (arith, fails))
    | inr (b, sent) ↦ elim (laws.held-set now (redis_key uri) b ttl (redis_key j) s) [
      | inl kept ↦ inl (rw sent kept)
      | inr (same, new) ↦ inr (
        redis_key-injective uri j same,
        b,
        sent,
        rw sent (new ∙ ap (λ x. some (record { value = b; expiry = x })) (expiry_positive now)),
      )
    ]
  ]

  redis-IsCache : IsCache (redis_ops redis proto ttl) ttl
  unfolding redis_key redis_invalidate
  redis-IsCache = record {
    Fits = AllExpire;
    Keeps = HeldAt;
    hits = redis_get-HeldAt;
    put-Fits = λ now uri resp s all j h e. elim (held-redis_put now uri j resp s) [
      | inl kept ↦ all j h (sym kept ∙ e)
      | inr (same, b, sent, new) ↦ (now, ground (arith, sym new ∙ e))
    ];
    put-Keeps = λ now t uri j resp hit s all k. elim (held-redis_put now uri j resp s) [
      | inl kept ↦ inr (record { value = k.value; is_held = sym kept ∙ k.is_held; reads = k.reads })
      | inr (same, b, sent, new) ↦
          let is = sym new ∙ k.is_held in
          let value : b ≡ k.value = ground (arith, is) in
          inl (
            ground (arith, is),
            same,
            ground (arith, coded resp b sent, ap proto.unmarshal value, k.reads),
          )
    ];
    invalidate-Fits = λ now uri s all j h e.
        elim (laws.held-del now (redis_key uri) (redis_key j) s) [
          | inl kept ↦ all j h (sym kept ∙ e)
          | inr gone ↦ absurd (ground (arith, sym gone ∙ e))
        ];
    invalidate-Keeps = λ now t uri j hit s k.
        elim (laws.held-del now (redis_key uri) (redis_key j) s) [
          | inl kept ↦ record { value = k.value; is_held = sym kept ∙ k.is_held; reads = k.reads }
          | inr gone ↦ absurd (ground (arith, sym gone ∙ k.is_held))
        ];
  }

  pub redis-Contract :
      Contract
        (redis_ops redis proto ttl)
        ttl
        (λ s. (uri : Str) → laws.held s (redis_key uri) ≡ none)
  unfolding redis-IsCache
  redis-Contract =
      IsCache-Contract (redis_ops redis proto ttl) ttl redis-IsCache
        (λ s. (uri : Str) → laws.held s (redis_key uri) ≡ none)
        (λ s empty uri h e. absurd (ground (arith, empty uri, e)))
        (λ s t uri hit empty k. ground (arith, empty uri, k.is_held))
