-- ===== src/Server/Redis/Refines.antt =====
-- Both caches keep the contract.
pub mod InRedis
pub mod InMemory
use promptnet.Prelude.{ℕ, ◌≡◌, ◌≢◌, none, some, Str, nat_eq, str_eq, arith}
use promptnet.Prelude.Assoc
use promptnet.Server.Cache
use promptnet.Server.Contract.{Contract}
use promptnet.Server.Redis.{Redis, Proto, redis_key, redis_ops, new_mem_cache, mem_ops}
use promptnet.Server.Redis.Refines.InRedis.{RedisLaws, ProtoLaws, redis-Contract}
use promptnet.Server.Redis.Refines.InMemory.{mem-Contract}

-- Both implementations refine the contract of the interface, the in-process one and the Redis one
-- with a server that may lose any command: after any calls from an empty cache, a hit is a response
-- that was put at this URI no longer ago than the TTL. The TTL is positive.
pub caches-Contract :
    (redis : Redis) (proto : Proto) (laws : RedisLaws redis)
    → ProtoLaws proto
    → (ttl : ℕ) → ttl ≢ 0
    → Contract
        (redis_ops redis proto ttl)
        ttl
        (λ s. (uri : Str) → laws.held s (redis_key uri) ≡ none)
      × Contract mem_ops ttl (λ c. new_mem_cache ttl ≡ some c)
caches-Contract redis proto laws coded ttl positive =
    (redis-Contract redis proto laws coded ttl positive, mem-Contract ttl positive)
