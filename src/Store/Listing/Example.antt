-- ===== src/Store/Listing/Example.antt =====
-- A LIKE that compares letters exactly, and the listing at a concrete prefix.
use promptnet.Prelude.{
  ℕ, ◌≡◌, refl, Bool, true, false, ◌&&◌, ◌||◌, List, [], ◌∷◌, Str, ◌==◌, nat_eq, arith, codes,
  Bool-cases, inl, inr,
}
use promptnet.Prelude.Keys.{contains}
use promptnet.Store.Exec.{ok, PromptRow, State}
use promptnet.Store.Listing.{
  Token, literal, any_one, any_run, tokens, Matches, end, one, stop, more, keys, Sql, SqlLaws,
  Entry, list,
}
use promptnet.Store.Listing.Prefix.{starts_like, uris, list_prefix}

unfoldable accepts : List Token → Str → Bool
accepts [] [] = true
accepts [] (d ∷ t) = false
accepts (literal c ∷ p) [] = false
accepts (literal c ∷ p) (d ∷ t) = (c == d) && accepts p t
accepts (any_one ∷ p) t = false
accepts (any_run ∷ p) [] = accepts p []
accepts (any_run ∷ p) (d ∷ t) = accepts p (d ∷ t) || accepts (any_run ∷ p) t

abbrev exact : ℕ → ℕ → Bool
exact c d = c == d

accepts_sound : (p : List Token) (t : Str) → accepts p t ≡ true → Matches exact p t
unfolding accepts
accepts_sound [] [] h = end
accepts_sound [] (d ∷ t) h = absurd cc
accepts_sound (literal c ∷ p) [] h = absurd cc
accepts_sound (literal c ∷ p) (d ∷ t) h = one (ground arith) (accepts_sound p t (ground arith))
accepts_sound (any_one ∷ p) t h = absurd cc
accepts_sound (any_run ∷ p) [] h = stop (accepts_sound p [] h)
accepts_sound (any_run ∷ p) (d ∷ t) h = elim (Bool-cases (accepts p (d ∷ t))) [
  | inl here ↦ stop (accepts_sound p (d ∷ t) here)
  | inr not_here ↦ more (accepts_sound (any_run ∷ p) t (ground arith))
]

stop_accepts : (p : List Token) (t : Str) → accepts p t ≡ true → accepts (any_run ∷ p) t ≡ true
unfolding accepts
stop_accepts p [] h = h
stop_accepts p (d ∷ t) h = ground arith

more_accepts :
    (p : List Token) (d : ℕ) (t : Str)
    → accepts (any_run ∷ p) t ≡ true
    → accepts (any_run ∷ p) (d ∷ t) ≡ true
unfolding accepts
more_accepts p d t h = ground arith

accepts_complete : {p : List Token} {t : Str} → Matches exact p t → accepts p t ≡ true
unfolding accepts
accepts_complete end = refl
accepts_complete (one e m) = ground (arith, e, accepts_complete m)
accepts_complete (stop {p} {t} m) = stop_accepts p t (accepts_complete m)
accepts_complete (more {d} {p} {t} m) = more_accepts p d t (accepts_complete m)

abbrev exact_sql : Sql
exact_sql = record { like = λ p t. accepts (tokens p) t; order_by_uri = λ l. l }

exact_laws : SqlLaws exact_sql exact
exact_laws = record {
  like_iff = λ p t plain. (accepts_sound (tokens p) t, accepts_complete);
  contains-order_by_uri = λ l u. refl;
}

abbrev row : PromptRow
row = record { template = []; slots = []; version_hash = codes "v" }

abbrev two : State
two = record {
  db = record {
    prompts = (codes "promptnet://acme/a", row) ∷ (codes "promptnet://other/a", row) ∷ [];
    commits = [];
    refs = [];
  };
  io = [];
  draws = 0;
  clock = 0;
}

list_prefix_example :
    (out : List Entry) × (list exact_sql (codes "promptnet://acme/") two ≡ (ok out, two))
    × ((u : Str)
        → contains (uris out) u
          ≡ (contains (keys two.db.prompts) u && starts_like exact (codes "promptnet://acme/") u))
list_prefix_example = list_prefix exact_sql exact exact_laws (codes "promptnet://acme/") two refl
