-- ===== src/Server/Serve.antt =====
-- The state of the service and the steps of its handlers: a call of the store, of the cache, of the
-- notifier, and an early return with a status.
use promptnet.Prelude.{
  ℕ, ◌≡◌, refl, arith, Bool, true, false, Option, none, some, List, [], ◌∷◌, ◌++◌, Str, str_eq,
  if◌then◌else◌,
}
use promptnet.Semdiff.Analyze.{Class}
use promptnet.Server.Auth.{Code, Reply, ok, err, permission_denied, Ctx, authorized, may_write}
use promptnet.Server.Cache.{Response, TtlCache, get, put, invalidate}
use promptnet.Store.Exec.{Result, State, Exec}

-- the classification that a notification carries; `unclassified` is ""
pub data Label : Type 0 where
  unclassified new_prompt : Label
  classified : Class → Label

pub record Event : Type 0 where
  pub uri : Str
  pub version_hash : Str
  pub label : Label

-- `cache` is none where L2 is disabled; `events` are the notifications so far, the last at the end
pub record Node : Type 0 where
  pub store : State
  pub cache : Option TtlCache
  pub events : List Event

-- a request is served at one time
abbrev pub at_time : ℕ → Node → Node
at_time now n = record n { store = record n.store { clock = now } }

abbrev pub Serve {ℓ} : Type ℓ → Type ℓ
Serve A = Node → Reply A × Node

module _ {ℓ} {A : Type ℓ} where
  abbrev pub pure : A → Serve A
  pure a s = (ok a, s)

  abbrev pub fail : Code → Serve A
  fail c s = (err c, s)

  -- a call of the store, whose outcome the handler looks at
  abbrev pub call : Exec A → Serve (Result A)
  call m s = (ok (m s.store).0, record s { store = (m s.store).1 })

module _ {ℓ κ} {A : Type ℓ} {B : Type κ} where
  abbrev pub continue : Reply A × Node → (A → Serve B) → Reply B × Node
  continue (ok a, s) f = f a s
  continue (err c, s) f = (err c, s)

  infixl 5 ◌>>=◌ ◌>>◌
  abbrev pub ◌>>=◌ : Serve A → (A → Serve B) → Serve B
  ◌>>=◌ m f s = continue (m s) f

  abbrev pub ◌>>◌ : Serve A → Serve B → Serve B
  m >> n = m >>= λ _. n

abbrev pub Unit0 : Type 0
Unit0 = Unit

-- `authorize` and `requireWrite`, with the early return at their calls
unfoldable pub guard : Bool → Serve Unit0
guard true = pure tt
guard false = fail permission_denied

abbrev pub authorize : Ctx → Str → Serve Unit0
authorize ctx uri = guard (authorized ctx uri)

abbrev pub require_write : Ctx → Serve Unit0
require_write ctx = guard (may_write ctx)

pub guard_ok :
    (b : Bool) {B : Type 0} (f : Serve B) (x : B) (s : Node)
    → ((guard b >> f) s).0 ≡ ok x
    → (b ≡ true) × ((guard b >> f) s ≡ f s)
unfolding guard
guard_ok true f x s e = (refl, refl)
guard_ok false f x s e = absurd (ground (arith, e))

-- The calls of the cache and of the notifier stand behind a test for nil.
unfoldable pub cached : ℕ → Str → Option TtlCache → Option Response
cached now uri none = none
cached now uri (some c) = get now uri c

unfoldable pub with_entry : ℕ → Str → Response → Option TtlCache → Option TtlCache
with_entry now uri resp none = none
with_entry now uri resp (some c) = some (put now uri resp c)

unfoldable pub without_entry : Str → Option TtlCache → Option TtlCache
without_entry uri none = none
without_entry uri (some c) = some (invalidate uri c)

abbrev pub cache_get : Str → Serve (Option Response)
cache_get uri s = (ok (cached s.store.clock uri s.cache), s)

abbrev pub cache_put : Str → Response → Serve Unit0
cache_put uri resp s = (ok tt, record s { cache = with_entry s.store.clock uri resp s.cache })

abbrev pub cache_invalidate : Str → Serve Unit0
cache_invalidate uri s = (ok tt, record s { cache = without_entry uri s.cache })

-- `Notifier.Publish`, whose error the handlers drop; `false` is a nil notifier
abbrev pub notify : Bool → Event → Serve Unit0
notify notifier e s =
    (ok tt, record s { events = if notifier then s.events ++ e ∷ [] else s.events })
