-- ===== src/Pubsub/Examples.antt =====
-- The theorems about notifications at concrete events.
use promptnet.Prelude.{
  ◌≡◌, refl, ap, Option, none, some, List, [], ◌∷◌, Str, str_eq, codes, equal, equal_iff, arith,
}
use promptnet.Prelude.Text.{trim_prefix, cut_prefix}
use promptnet.Pubsub.{Notice, Json, publish_events, received, subject, replace_byte}
use promptnet.Pubsub.Watches.{Plain, JsonLaws, notices_of, received-publish_events}
use promptnet.Server.Serve
use promptnet.Server.Serve.{new_prompt, unclassified}
use promptnet.Store.Examples.Codec.{put_list, get_list, get_list-put_list}

abbrev from_strings : List Str × Str → Option Notice
from_strings (v ∷ c ∷ [], rest) = some (record { version = v; classification = c })
from_strings (_, rest) = none

abbrev json : Json
json = record {
  marshal = λ e. some (put_list (e.version ∷ e.classification ∷ []) []);
  unmarshal = λ b. from_strings (get_list b);
}

abbrev AnyText : Str → Type 0
AnyText s = Unit

json_laws : JsonLaws json AnyText
json_laws = record {
  encode = λ e v c. (
    put_list (e.version ∷ e.classification ∷ []) [],
    refl,
    ap from_strings (get_list-put_list (e.version ∷ e.classification ∷ []) []),
  );
}

abbrev uri_a : Str
uri_a = codes "promptnet://a/b"

abbrev uri_c : Str
uri_c = codes "promptnet://c"

uri_a-Plain : Plain uri_a
unfolding subject trim_prefix cut_prefix replace_byte
uri_a-Plain = record {
  path = codes "a/b";
  is_uri = refl;
  no_dot = ground arith;
  literal = ground arith;
}

uri_c-Plain : Plain uri_c
unfolding subject trim_prefix cut_prefix replace_byte
uri_c-Plain = record {
  path = codes "c";
  is_uri = refl;
  no_dot = ground arith;
  literal = ground arith;
}

abbrev events : List Serve.Event
events =
    record { uri = uri_a; version_hash = codes "1"; label = new_prompt }
    ∷ record { uri = uri_c; version_hash = codes "2"; label = unclassified }
    ∷ []

received-publish_events_example :
    received json (λ s t. equal s t) uri_a (publish_events json events) ≡ notices_of uri_a events
received-publish_events_example =
    received-publish_events json json_laws (λ s t. equal s t) (λ s t p q. equal_iff s t) uri_a
      events uri_a-Plain ((uri_a-Plain, (λ e. cc), tt, tt), ((uri_c-Plain, (λ e. cc), tt, tt), tt))
