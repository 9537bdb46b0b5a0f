-- ===== src/Command/Diff/Exact.antt =====
-- What `diff` shows is what the server computed.
use promptnet.Prelude.{
  ℕ, ◌+◌, ◌*◌, ◌%◌, ◌<◌, ◌≡◌, refl, sym, ap, ◌∙◌, Option, none, some, List, [], ◌∷◌, Str, length,
  arith, map,
}
use promptnet.Command.Diff.{from_int32, from_windows, from_change, from_proto}
use promptnet.Semdiff.Analyze
use promptnet.Semdiff.Analyze.{Window, Report, analyze}
use promptnet.Semdiff.Bounds.{AllWithin, InRange, AllInRange, analyze-AllInRange}
use promptnet.Semdiff.Float.{Float}
use promptnet.Server.Auth.{ok}
use promptnet.Server.Handlers.{Wiring, split_lines}
use promptnet.Server.Requests.{
  int32, WireChange, wire_change, to_windows, to_answer, diff_with, diff,
}
use promptnet.Server.Serve.{Node}
use promptnet.Store.Env.{Env}
use promptnet.Store.Listing.{Sql}

from_int32_exact : (n : ℕ) → n < 2147483648 → from_int32 (int32 n) ≡ some n
unfolding from_int32
from_int32_exact n h = let same : n % 4294967296 ≡ n = omega (arith, h) in ground (arith, same, h)

module _ (fl : Float) where
  from_windows-to_windows :
      (b : ℕ) (ws : List (Window fl))
      → b < 2147483648
      → AllWithin fl b ws
      → from_windows fl (to_windows fl ws) ≡ some ws
  unfolding from_windows to_windows
  from_windows-to_windows b [] lt h = refl
  from_windows-to_windows b (w ∷ ws) lt h = ground (
    arith,
    from_int32_exact w.radius (omega (arith, lt, h.0)),
    from_windows-to_windows b ws lt h.1,
  )

  from_change-wire_change :
      (m n : ℕ) (r : Report fl)
      → 4 * (m + n) + 2 < 2147483648
      → InRange fl m n r
      → from_change fl (wire_change fl r) ≡ some r
  unfolding from_change wire_change
  from_change-wire_change m n r lt h =
      let i = h.inside in
      ground (
        arith,
        from_int32_exact r.change.old_start (omega (arith, lt, i.old_start)),
        from_int32_exact r.change.old_end (omega (arith, lt, i.old_end)),
        from_int32_exact r.change.new_start (omega (arith, lt, i.new_start)),
        from_int32_exact r.change.new_end (omega (arith, lt, i.new_end)),
        from_windows-to_windows (4 * (m + n) + 2) r.up.curve lt h.up,
        from_windows-to_windows (4 * (m + n) + 2) r.down.curve lt h.down,
      )

  from_proto-map :
      (m n : ℕ) (rs : List (Report fl))
      → 4 * (m + n) + 2 < 2147483648
      → AllInRange fl m n rs
      → from_proto fl (map (wire_change fl) rs) ≡ some rs
  unfolding from_proto
  from_proto-map m n [] lt h = refl
  from_proto-map m n (r ∷ rs) lt h =
      ground (arith, from_change-wire_change m n r lt h.0, from_proto-map m n rs lt h.1)

module _ (env : Env) (sql : Sql) (fl : Float) (wiring : Wiring fl) (old_t new_t : Str)
    (ds : List (WireChange fl))
    (lt : 4 * (length (split_lines old_t) + length (split_lines new_t)) + 2 < 2147483648) where
  to_answer-exact :
      (embed : ℕ → Str → Option (List (List fl.Single))) (o : Analyze.Outcome (List (Report fl)))
      (s : Node)
      → (analyze fl embed (split_lines old_t) (split_lines new_t) wiring.pf).0 ≡ o
      → (to_answer env sql fl wiring o s).0 ≡ ok ds
      → (rs : List (Report fl)) × (o ≡ Analyze.ok rs) × (from_proto fl ds ≡ some rs)
  unfolding to_answer
  to_answer-exact embed (Analyze.err Analyze.failed) s a e = absurd cc
  to_answer-exact embed (Analyze.err Analyze.panicked) s a e = absurd cc
  to_answer-exact embed (Analyze.err Analyze.diverged) s a e = absurd cc
  to_answer-exact embed (Analyze.ok rs) s a e =
      let sent : map (wire_change fl) rs ≡ ds = ground (arith, e) in
      let range =
        analyze-AllInRange fl embed (split_lines old_t) (split_lines new_t) wiring.pf rs a in
      (rs, refl, ap (from_proto fl) (sym sent) ∙ from_proto-map fl _ _ rs lt range)

  diff_with-exact :
      (o : Option (ℕ → Str → Option (List (List fl.Single)))) (s : Node)
      → (diff_with env sql fl wiring o old_t new_t s).0 ≡ ok ds
      → (embed : ℕ → Str → Option (List (List fl.Single))) × (rs : List (Report fl)) × (o
          ≡ some embed)
        × ((analyze fl embed (split_lines old_t) (split_lines new_t) wiring.pf).0 ≡ Analyze.ok rs)
        × (from_proto fl ds ≡ some rs)
  unfolding diff_with
  diff_with-exact none s e = absurd cc
  diff_with-exact (some embed) s e =
      let (rs, done, exact) = to_answer-exact embed _ s refl e in (embed, rs, refl, done, exact)

-- What the client rebuilds of an answer is the analysis of the server, the embedder that is
-- configured being asked: no number is lost in an int32 of the message, for two templates of so few
-- lines that four times their sum, and two, is less than 2 ^ 31.
pub from_proto-diff :
    (env : Env) (sql : Sql) (fl : Float) (wiring : Wiring fl) (old_t new_t : Str) (s : Node)
    (ds : List (WireChange fl))
    → 4 * (length (split_lines old_t) + length (split_lines new_t)) + 2 < 2147483648
    → (diff env sql fl wiring old_t new_t s).0 ≡ ok ds
    → (embed : ℕ → Str → Option (List (List fl.Single))) × (rs : List (Report fl))
      × (wiring.embedder ≡ some embed)
      × ((analyze fl embed (split_lines old_t) (split_lines new_t) wiring.pf).0 ≡ Analyze.ok rs)
      × (from_proto fl ds ≡ some rs)
unfolding diff
from_proto-diff env sql fl wiring old_t new_t s ds lt e =
    diff_with-exact env sql fl wiring old_t new_t ds lt wiring.embedder s e
