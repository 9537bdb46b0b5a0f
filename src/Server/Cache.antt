-- ===== src/Server/Cache.antt =====
-- `ttlCache`: the expiry that `Put` sets is read at `Get` alone, so that entries stay until they are
-- overwritten or invalidated.
use promptnet.Prelude.{
  ℕ, ◌+◌, ◌≡◌, Option, none, some, List, Str, ◌==◌, str_eq, ltb, if◌then◌else◌, arith,
}
use promptnet.Prelude.Assoc
use promptnet.Prelude.Assoc.{get-set, get-remove}

pub record Response : Type 0 where
  pub uri : Str
  pub template : Str
  pub slots : List Str
  pub version_hash : Str
  pub commit_hash : Str

pub record CacheEntry : Type 0 where
  pub resp : Response
  pub expiry : ℕ

pub record TtlCache : Type 0 where
  pub ttl : ℕ
  pub m : List (Str × CacheEntry)

unfoldable pub fresh : ℕ → Option CacheEntry → Option Response
fresh now none = none
fresh now (some e) = if ltb e.expiry now then none else some e.resp

unfoldable pub get : ℕ → Str → TtlCache → Option Response
unfolding fresh
get now uri c = fresh now (Assoc.get uri c.m)

unfoldable pub put : ℕ → Str → Response → TtlCache → TtlCache
put now uri resp c = record c {
  m = Assoc.set uri (record { resp = resp; expiry = now + c.ttl }) c.m;
}

unfoldable pub invalidate : Str → TtlCache → TtlCache
invalidate uri c = record c { m = Assoc.remove uri c.m }

-- what `Get` finds at a time, after a `Put` and after an `Invalidate` at any earlier one
pub get-put :
    (now later : ℕ) (uri j : Str) (resp : Response) (c : TtlCache)
    → get later j (put now uri resp c)
      ≡ (if uri == j then (if ltb (now + c.ttl) later then none else some resp) else get later j c)
unfolding get put fresh
get-put now later uri j resp c =
    ground (arith, get-set uri j (record { resp = resp; expiry = now + c.ttl }) c.m)

pub get-invalidate :
    (now : ℕ) (uri j : Str) (c : TtlCache)
    → get now j (invalidate uri c) ≡ (if uri == j then none else get now j c)
unfolding get invalidate fresh
get-invalidate now uri j c = ground (arith, get-remove uri j c.m)
