-- ===== src/Server/Redis.antt =====
-- internal/server/redis_cache.go, and the choice of the cache in cmd/promptnet/main.go.
pub mod Refines
use promptnet.Prelude.{
  ℕ, ◌+◌, Option, none, some, [], ◌∷◌, ◌++◌, Str, ◌==◌, nat_eq, str_eq, if◌then◌else◌, codes,
}
use promptnet.Server.Cache
use promptnet.Server.Cache.{Response, TtlCache}
use promptnet.Server.Contract.{CacheOps}

-- The Redis server with its client: `get` gives a value, or none for a miss and for an error. A
-- TTL of 0 means that the key does not expire.
pub record Redis : Type 1 where
  pub Server : Type 0
  pub get : ℕ → Str → Server → Option Str
  pub set : ℕ → Str → Str → ℕ → Server → Server
  pub del : ℕ → Str → Server → Server

-- proto.Marshal and proto.Unmarshal of a response
pub record Proto : Type 0 where
  pub marshal : Response → Option Str
  pub unmarshal : Str → Option Response

unfoldable pub redis_key : Str → Str
redis_key uri = codes "promptnet:cache:" ++ uri

module _ (redis : Redis) (proto : Proto) where
  unfoldable pub unmarshal_found : Option Str → Option Response
  unmarshal_found none = none
  unmarshal_found (some b) = proto.unmarshal b

  unfoldable pub redis_get : ℕ → Str → redis.Server → Option Response
  unfolding unmarshal_found redis_key
  redis_get now uri s = unmarshal_found (redis.get now (redis_key uri) s)

  unfoldable pub set_marshaled : ℕ → Str → ℕ → Option Str → redis.Server → redis.Server
  set_marshaled now uri ttl none s = s
  set_marshaled now uri ttl (some b) s = redis.set now (redis_key uri) b ttl s

  unfoldable pub redis_put : ℕ → ℕ → Str → Response → redis.Server → redis.Server
  unfolding set_marshaled redis_key
  redis_put ttl now uri resp s = set_marshaled now uri ttl (proto.marshal resp) s

  unfoldable pub redis_invalidate : ℕ → Str → redis.Server → redis.Server
  unfolding redis_key
  redis_invalidate now uri s = redis.del now (redis_key uri) s

  abbrev pub redis_ops : ℕ → CacheOps
  redis_ops ttl = record {
    State = redis.Server;
    get = redis_get;
    put = redis_put ttl;
    invalidate = redis_invalidate;
  }

-- `NewMemCache`: nil where the TTL is not positive
unfoldable pub new_mem_cache : ℕ → Option TtlCache
new_mem_cache ttl = if ttl == 0 then none else some (record { ttl = ttl; m = [] })

pub data CacheName : Type 0 where
  redis mem off : CacheName

-- `cacheName`, by the test that `buildCache` makes of the URL; a TTL below 0 is as 0
unfoldable pub cache_name : Str → ℕ → CacheName
cache_name [] ttl = if ttl == 0 then off else mem
cache_name (_ ∷ _) ttl = redis

abbrev pub mem_ops : CacheOps
mem_ops = record {
  State = TtlCache;
  get = Cache.get;
  put = Cache.put;
  invalidate = λ now. Cache.invalidate;
}
