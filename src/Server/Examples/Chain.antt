-- ===== src/Server/Examples/Chain.antt =====
-- The theorems about the interceptors and the caches at concrete inputs.
use promptnet.Prelude.{
  ℕ, ◌-◌, ◌≡◌, ◌≢◌, refl, sym, ap, ◌∙◌, true, false, not, Option, none, some, List, [], ◌∷◌, ◌++◌,
  Str, codes, equal, equal_iff, arith, inl, inr, nat_eq, str_eq, ◌==◌, if◌then◌else◌, ltb,
  Bool-cases,
}
use promptnet.Prelude.Assoc
use promptnet.Prelude.Assoc.{get-set, get-remove}
use promptnet.Semdiff.Examples.{hundredths, lengths}
use promptnet.Server.Auth.{panic, permission_denied, err, Token, intercept, authorized}
use promptnet.Server.Auth.Tokens.{bearer}
use promptnet.Server.Cache.{Response}
use promptnet.Server.Chain.{
  Rate, Limit, Arrival, Gate, serve_request, serve_requests, status, full_method,
}
use promptnet.Server.Chain.Limits.{only, limiters_isolated}
use promptnet.Server.Chain.Observed.{lines_of, serve_request_observed}
use promptnet.Server.Contract.{Contract}
use promptnet.Server.Handlers.{Wiring}
use promptnet.Server.Redis.{Redis, Proto, redis_key, redis_ops, new_mem_cache, mem_ops}
use promptnet.Server.Redis.Refines.{caches-Contract}
use promptnet.Server.Redis.Refines.InRedis.{Held, Live, expiry_of, RedisLaws, ProtoLaws}
use promptnet.Server.Requests.{get_request, handle}
use promptnet.Server.Serve.{guard}
use promptnet.Store.Examples.{toy, fresh_node, uri_a}
use promptnet.Store.Examples.Codec.{put_list, get_list, get_list-put_list}
use promptnet.Store.Listing.{Sql}

abbrev rate : Rate
rate = record {
  Rps = ℕ;
  Limiter = ℕ;
  positive = λ r. not (r == 0);
  floor = λ r. r;
  new_limiter = λ r burst. burst;
  allow = λ now left. if left == 0 then (false, 0) else (true, left - 1);
}

abbrev limit : Limit rate
limit = record { rps = 1; burst = 0 }

abbrev wiring : Wiring hundredths
wiring = record { embedder = some lengths; pf = 60; notifier = true }

abbrev sql : Sql
sql = record { like = λ p t. equal p t; order_by_uri = λ l. l }

abbrev tokens : List (Str × Token)
tokens =
    (codes "k", record { org = codes "acme"; expires = 0; write = false })
    ∷ (codes "l", record { org = codes "other"; expires = 0; write = false })
    ∷ []

abbrev arrives : Str → Arrival rate
arrives key = record { now = 9; header = some (bearer key); request = get_request uri_a [] }

abbrev gate : Gate rate
gate = record {
  node = record { store = fresh_node; cache = none; events = [] };
  limiters = [];
  counted = [];
  audits = [];
}

abbrev traffic : List (Arrival rate)
traffic = arrives (codes "k") ∷ arrives (codes "l") ∷ arrives (codes "k") ∷ []

limiters_isolated_example :
    Assoc.get
      (codes "other")
      (serve_requests rate toy sql hundredths wiring tokens limit traffic gate).limiters
    ≡ Assoc.get
        (codes "other")
        (serve_requests rate toy sql hundredths wiring tokens limit
          (only rate tokens limit (codes "other") traffic)
          gate).limiters
limiters_isolated_example =
    limiters_isolated rate tokens limit toy sql hundredths wiring (codes "other") traffic gate

-- the second token may not read the prompt of the first one's org
test_reply :
    (serve_request rate toy sql hundredths wiring tokens limit (arrives (codes "l")) gate).0
    ≡ err permission_denied
unfolding serve_request intercept equal Assoc.get handle guard authorized
test_reply = refl

test_denied :
    (serve_request rate toy sql hundredths wiring tokens limit (arrives (codes "l")) gate).0
    ≢ err panic
test_denied e = absurd (ground (arith, test_reply, e))

serve_request_observed_example :
    ((serve_request rate toy sql hundredths wiring tokens limit
        (arrives (codes "l"))
        gate).1.counted
      ≡ []
        ++ (
          full_method (get_request uri_a []),
          status
              (serve_request rate toy sql hundredths wiring tokens limit
                (arrives (codes "l"))
                gate).0,
        )
          ∷ [])
    × ((serve_request rate toy sql hundredths wiring tokens limit
          (arrives (codes "l"))
          gate).1.audits
        ≡ []
          ++ lines_of rate (arrives (codes "l")) (intercept tokens 9 (some (bearer (codes "l")))) (
              status
                (serve_request rate toy sql hundredths wiring tokens limit
                  (arrives (codes "l"))
                  gate).0))
serve_request_observed_example =
    serve_request_observed rate toy sql hundredths wiring limit (arrives (codes "l")) tokens gate
      test_denied

abbrev live_value : ℕ → Option Held → Option Str
live_value now none = none
live_value now (some h) = elim h.expiry [
  | none ↦ some h.value
  | some t ↦ if ltb t now then none else some h.value
]

abbrev redis : Redis
redis = record {
  Server = List (Str × Held);
  get = λ now k s. live_value now (Assoc.get k s);
  set = λ now k v ttl s. Assoc.set k (record { value = v; expiry = expiry_of now ttl }) s;
  del = λ now k s. Assoc.remove k s;
}

live_value-Live :
    (now : ℕ) (o : Option Held) (v : Str)
    → live_value now o ≡ some v
    → (h : Held) × (o ≡ some h) × (h.value ≡ v) × Live now h.expiry
live_value-Live now none v e = absurd cc
live_value-Live now (some h) v e = (h, refl, value h.expiry e, live h.expiry e)
  where
    value :
        (x : Option ℕ)
        → live_value now (some (record { value = h.value; expiry = x })) ≡ some v
        → h.value ≡ v
    value none e = ground (arith, e)
    value (some t) e = ground (arith, e)

    live :
        (x : Option ℕ)
        → live_value now (some (record { value = h.value; expiry = x })) ≡ some v
        → Live now x
    live none e = tt
    live (some t) e = ground (arith, e)

redis_laws : RedisLaws redis
redis_laws = record {
  held = λ s k. Assoc.get k s;
  get-held = λ now k v s e. live_value-Live now (Assoc.get k s) v e;
  held-set = λ now k v ttl j s. elim (Bool-cases (equal k j)) [
    | inl same ↦ inr (
      (equal_iff k j).0 same,
      ground (arith, get-set k j (record { value = v; expiry = expiry_of now ttl }) s, same),
    )
    | inr other ↦
        inl
          (ground (arith, get-set k j (record { value = v; expiry = expiry_of now ttl }) s, other))
  ];
  held-del = λ now k j s. elim (Bool-cases (equal k j)) [
    | inl same ↦ inr (ground (arith, get-remove k j s, same))
    | inr other ↦ inl (ground (arith, get-remove k j s, other))
  ];
}

abbrev from_strings : List Str × Str → Option Response
from_strings (u ∷ t ∷ v ∷ c ∷ slots, rest) =
    some (record { uri = u; template = t; slots = slots; version_hash = v; commit_hash = c })
from_strings (_, rest) = none

abbrev proto : Proto
proto = record {
  marshal = λ r. some (put_list (r.uri ∷ r.template ∷ r.version_hash ∷ r.commit_hash ∷ r.slots) []);
  unmarshal = λ b. from_strings (get_list b);
}

proto_laws : ProtoLaws proto
proto_laws r b e =
    let l = r.uri ∷ r.template ∷ r.version_hash ∷ r.commit_hash ∷ r.slots in
    let is : put_list l [] ≡ b = ground (arith, e) in
    ap (λ x. from_strings (get_list x)) (sym is) ∙ ap from_strings (get_list-put_list l [])

caches-Contract_example :
    Contract
      (redis_ops redis proto 60)
      60
      (λ s. (uri : Str) → redis_laws.held s (redis_key uri) ≡ none)
    × Contract mem_ops 60 (λ c. new_mem_cache 60 ≡ some c)
caches-Contract_example = caches-Contract redis proto redis_laws proto_laws 60 (λ e. cc)
