-- ===== src/Pubsub/Watches.antt =====
-- A subscriber is told of each notification of its prompt.
use promptnet.Prelude.{
  ◌≡◌, ◌≢◌, refl, sym, ap, ◌∙◌, Bool, true, false, some, List, [], ◌∷◌, ◌++◌, Str, ◌==◌, nat_eq,
  str_eq, if◌then◌else◌, codes, arith, equal, equal_iff, Bool-cases, inl, inr, drop, ◌≤◌, ◌↔◌, ◌⊎◌,
}
use promptnet.Prelude.Text.{trim_prefix, cut_prefix}
use promptnet.Pubsub.{
  Notice, replace_byte, subject, Json, label_text, message_of, publish, publish_events, parsed_or,
  parse_event, received,
}
use promptnet.Server.Serve

-- no '.' in the path, so that '/' alone becomes one
abbrev pub NoDot : Str → Type 0
NoDot [] = Unit
NoDot (c ∷ s) = (c ≢ b'.') × NoDot s

-- Literal subjects: tokens that are not empty, of visible bytes but the wildcards, between dots.
abbrev pub LiteralFrom : Bool → Str → Type 0
LiteralFrom begun [] = begun ≡ true
LiteralFrom begun (c ∷ s) =
    ((c ≡ b'.') × (begun ≡ true) × LiteralFrom false s)
    ⊎ ((33 ≤ c) × (c ≢ b'.') × (c ≢ b'*') × (c ≢ b'>') × LiteralFrom true s)

abbrev pub Literal : Str → Type 0
Literal s = LiteralFrom false s

-- NATS takes a message to the subscriptions to its subject, where both are literal.
abbrev pub NatsLaw : (Str → Str → Bool) → Type 0
NatsLaw delivers = (s t : Str) → Literal s → Literal t → (delivers s t ≡ true) ↔ (s ≡ t)

-- a URI of the scheme whose path has no dot and makes a literal subject
pub record Plain (uri : Str) : Type 0 where
  pub path : Str
  pub is_uri : uri ≡ codes "promptnet://" ++ path
  pub no_dot : NoDot path
  pub literal : Literal (subject uri)

replace_byte-injective :
    (a b : Str) → NoDot a → NoDot b → replace_byte b'/' b'.' a ≡ replace_byte b'/' b'.' b → a ≡ b
unfolding replace_byte
replace_byte-injective [] [] h k e = refl
replace_byte-injective [] (y ∷ b) h k e = absurd cc
replace_byte-injective (x ∷ a) [] h k e = absurd cc
replace_byte-injective (x ∷ a) (y ∷ b) h k e =
    let tails : replace_byte b'/' b'.' a ≡ replace_byte b'/' b'.' b = ground (arith, e) in
    let heads : x ≡ y = ground (arith, e, h.0, k.0) in
    ground (arith, heads, replace_byte-injective a b h.1 k.1 tails)

subject-path :
    (path : Str)
    → subject (codes "promptnet://" ++ path) ≡ codes "promptnet." ++ replace_byte b'/' b'.' path
unfolding subject trim_prefix cut_prefix
subject-path path = refl

-- Two plain URIs have one subject only if they are the same.
pub subject-injective : (u v : Str) → Plain u → Plain v → subject u ≡ subject v → u ≡ v
subject-injective u v p q e =
    let bodies : replace_byte b'/' b'.' p.path ≡ replace_byte b'/' b'.' q.path = ap (drop 10) (
      sym (ap subject p.is_uri ∙ subject-path p.path)
      ∙ e
      ∙ ap subject q.is_uri
      ∙ subject-path q.path) in
    p.is_uri
    ∙ ap (λ x. codes "promptnet://" ++ x)
        (replace_byte-injective p.path q.path p.no_dot q.no_dot bodies)
    ∙ sym q.is_uri

-- An event that is encoded can be decoded, and encoding does not fail.
pub record JsonLaws (json : Json) (IsText : Str → Type 0) : Type 0 where
  pub encode :
      (e : Notice)
      → IsText e.version
      → IsText e.classification
      → (b : Str) × (json.marshal e ≡ some b) × (json.unmarshal b ≡ some e)

-- the notifications of one prompt
abbrev pub notices_of : Str → List Serve.Event → List Notice
notices_of uri [] = []
notices_of uri (e ∷ events) =
    let rest = notices_of uri events in
    if e.uri == uri
    then record { version = e.version_hash; classification = label_text e.label } ∷ rest
    else rest

-- events of plain URIs, whose version is a text that is not empty
abbrev pub AllPlain : (Str → Type 0) → List Serve.Event → Type 0
AllPlain IsText [] = Unit
AllPlain IsText (e ∷ events) =
    (Plain e.uri × (e.version_hash ≢ []) × IsText e.version_hash × IsText (label_text e.label))
    × AllPlain IsText events

module _ (json : Json) {IsText : Str → Type 0} (laws : JsonLaws json IsText)
    (delivers : Str → Str → Bool) (nats : NatsLaw delivers) where
  parse_event-marshal :
      (e : Notice) (b : Str) → e.version ≢ [] → json.unmarshal b ≡ some e → parse_event json b ≡ e
  unfolding parse_event parsed_or
  parse_event-marshal e b ne back = ground (arith, back, equal_iff e.version [], ne)

  -- Whoever subscribes to a prompt is called with the version and the classification of each of its
  -- notifications, in their order, and with no other prompt's. The URIs have the scheme, no dot and
  -- nothing that NATS reads otherwise, and the versions are not empty.
  pub received-publish_events :
      (uri : Str) (events : List Serve.Event)
      → Plain uri
      → AllPlain IsText events
      → received json delivers uri (publish_events json events) ≡ notices_of uri events
  unfolding received publish_events publish message_of
  received-publish_events uri [] plain all = refl
  received-publish_events uri (e ∷ events) plain all =
      let notice : Notice = record {
        version = e.version_hash;
        classification = label_text e.label;
      } in
      let (b, sent, back) = laws.encode notice all.0.2 all.0.3 in
      let rest = received-publish_events uri events plain all.1 in
      elim (Bool-cases (equal e.uri uri)) [
        | inl same ↦ ground (
          arith,
          sent,
          rest,
          same,
          parse_event-marshal notice b all.0.1 back,
          nats (subject uri) (subject e.uri) plain.literal all.0.0.literal,
          ap subject ((equal_iff e.uri uri).0 same),
        )
        | inr other ↦ ground (
          arith,
          sent,
          rest,
          other,
          equal_iff e.uri uri,
          nats (subject uri) (subject e.uri) plain.literal all.0.0.literal,
          subject-injective e.uri uri all.0.0 plain,
        )
      ]
