-- ===== src/Command/Diff.antt =====
-- `fromProto` and `fromWindows`: what `diff` reads of the server's answer.
pub mod Exact
use promptnet.Prelude.{ℕ, ◌^◌, Option, none, some, List, [], ◌∷◌, if◌then◌else◌, ltb}
use promptnet.Semdiff.Analyze.{Window, Report}
use promptnet.Semdiff.Float.{Float}
use promptnet.Server.Requests.{WireChange}

infixl 5 ◌>>=◌
abbrev pub ◌>>=◌ {ℓ κ} : {A : Type ℓ} {B : Type κ} → Option A → (A → Option B) → Option B
none >>= f = none
some a >>= f = f a

-- An int32, given by its residue, as an int: none for a negative one, which a report cannot hold.
unfoldable pub from_int32 : ℕ → Option ℕ
from_int32 n = if ltb n (2 ^ 31) then some n else none

module _ (fl : Float) where
  unfoldable pub from_windows : List (Window fl) → Option (List (Window fl))
  unfolding from_int32
  from_windows [] = some []
  from_windows (w ∷ ws) =
      let windows = from_windows ws in
      (do
        radius ← from_int32 w.radius
        rest ← windows
        some (record { radius = radius; delta = w.delta } ∷ rest))

  unfoldable pub from_change : WireChange fl → Option (Report fl)
  unfolding from_windows
  from_change c = do
    old_start ← from_int32 c.range.old_start
    old_end ← from_int32 c.range.old_end
    new_start ← from_int32 c.range.new_start
    new_end ← from_int32 c.range.new_end
    up ← from_windows c.up
    down ← from_windows c.down
    some (record {
      change = record {
        old_start = old_start;
        old_end = old_end;
        new_start = new_start;
        new_end = new_end;
      };
      signal2 = c.point_delta;
      up = record { curve = up; stopped_at_boundary = c.up_boundary };
      down = record { curve = down; stopped_at_boundary = c.down_boundary };
      class = c.classification;
    })

  unfoldable pub from_proto : List (WireChange fl) → Option (List (Report fl))
  unfolding from_change
  from_proto [] = some []
  from_proto (c ∷ cs) =
      let reports = from_proto cs in (do r ← from_change c; rest ← reports; some (r ∷ rest))
