-- ===== src/Command/Examples/Diff.antt =====
-- The theorem about `diff` at a template of one line.
use promptnet.Prelude.{ℕ, ◌≡◌, refl, Option, some, none, true, List, [], Str, codes, arith, equal}
use promptnet.Prelude.Assoc
use promptnet.Prelude.Text.{join}
use promptnet.Command.Diff.{from_proto}
use promptnet.Command.Diff.Exact.{from_proto-diff}
use promptnet.Semdiff.Analyze
use promptnet.Semdiff.Analyze.{Report, analyze}
use promptnet.Semdiff.Examples.{hundredths, lengths}
use promptnet.Server.Auth.{Reply, ok, err}
use promptnet.Server.Handlers.{Wiring, split_lines}
use promptnet.Server.Requests.{WireChange, diff}
use promptnet.Server.Serve.{Node}
use promptnet.Store.Examples.{toy, fresh_node}
use promptnet.Store.Listing.{Sql}

abbrev wiring : Wiring hundredths
wiring = record { embedder = some lengths; pf = 60; notifier = true }

abbrev sql : Sql
sql = record { like = λ p t. equal p t; order_by_uri = λ l. l }

abbrev node : Node
node = record { store = fresh_node; cache = none; events = [] }

abbrev changes_of : Reply (List (WireChange hundredths)) → List (WireChange hundredths)
changes_of (ok ds) = ds
changes_of (err c) = []

abbrev sent : List (WireChange hundredths)
sent = changes_of (diff toy sql hundredths wiring (codes "a") (codes "bb") node).0

test_sent : (diff toy sql hundredths wiring (codes "a") (codes "bb") node).0 ≡ ok sent
unfolding diff analyze split_lines equal join Assoc.get Assoc.set
test_sent = refl

from_proto-diff_example :
    (embed : ℕ → Str → Option (List (List hundredths.Single))) × (rs : List (Report hundredths))
    × (wiring.embedder ≡ some embed)
    × ((analyze hundredths embed (split_lines (codes "a")) (split_lines (codes "bb")) wiring.pf).0
        ≡ Analyze.ok rs)
    × (from_proto hundredths sent ≡ some rs)
from_proto-diff_example =
    from_proto-diff toy sql hundredths wiring (codes "a") (codes "bb") node sent
      (unfold split_lines in omega arith) test_sent
