-- ===== src/Pubsub.antt =====
-- internal/pubsub/pubsub.go: subjects, the body of a notification, and the callback of `watch` in
-- cmd/promptnet/main.go.
pub mod Watches
pub mod Examples
use promptnet.Prelude.{
  ℕ, Bool, Option, none, some, List, [], ◌∷◌, ◌++◌, Str, ◌==◌, nat_eq, str_eq, if◌then◌else◌, codes,
}
use promptnet.Prelude.Text.{trim_prefix}
use promptnet.Semdiff.Format.{class_name}
use promptnet.Server.Serve
use promptnet.Server.Serve.{Label, unclassified, new_prompt, classified}

pub record Notice : Type 0 where
  pub version : Str
  pub classification : Str

-- strings.ReplaceAll of one byte by another
unfoldable pub replace_byte : ℕ → ℕ → Str → Str
replace_byte a b [] = []
replace_byte a b (c ∷ s) = (if c == a then b else c) ∷ replace_byte a b s

unfoldable pub subject : Str → Str
unfolding replace_byte trim_prefix
subject uri = codes "promptnet." ++ replace_byte b'/' b'.' (trim_prefix uri (codes "promptnet://"))

-- json.Marshal and json.Unmarshal of an event; `unmarshal` gives none for an error
pub record Json : Type 0 where
  pub marshal : Notice → Option Str
  pub unmarshal : Str → Option Notice

-- the classification as the handlers pass it on
unfoldable pub label_text : Label → Str
unfolding class_name
label_text unclassified = []
label_text new_prompt = codes "new"
label_text (classified c) = class_name c

pub record Message : Type 0 where
  pub subject : Str
  pub body : Str

module _ (json : Json) where
  unfoldable pub message_of : Str → Option Str → Option Message
  unfolding subject
  message_of uri none = none
  message_of uri (some body) = some (record { subject = subject uri; body = body })

  -- `Bus.Publish`: the message, or an error of the encoder
  unfoldable pub publish : Str → Str → Str → Option Message
  unfolding message_of
  publish uri version_hash classification =
      message_of uri
        (json.marshal (record { version = version_hash; classification = classification }))

  -- the messages of the notifications of the service
  unfoldable pub publish_events : List Serve.Event → List Message
  unfolding publish label_text
  publish_events [] = []
  publish_events (e ∷ events) =
      let rest = publish_events events in
      elim (publish e.uri e.version_hash (label_text e.label)) [ none ↦ rest | some m ↦ m ∷ rest ]

  unfoldable pub parsed_or : Str → Option Notice → Notice
  parsed_or b none = record { version = b; classification = [] }
  parsed_or b (some e) = if e.version == [] then record { version = b; classification = [] } else e

  unfoldable pub parse_event : Str → Notice
  unfolding parsed_or
  parse_event b = parsed_or b (json.unmarshal b)

  -- What the callback of `Subscribe` is called with: `delivers` is whether NATS takes a message of the
  -- second subject to a subscription to the first.
  unfoldable pub received : (Str → Str → Bool) → Str → List Message → List Notice
  unfolding parse_event subject
  received delivers uri [] = []
  received delivers uri (m ∷ messages) =
      let rest = received delivers uri messages in
      if delivers (subject uri) m.subject then parse_event m.body ∷ rest else rest

-- the class that `watch` prints
unfoldable pub shown_class : Notice → Str
shown_class e = if e.classification == [] then codes "unknown" else e.classification
