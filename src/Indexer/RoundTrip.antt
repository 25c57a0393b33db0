-- ===== src/Indexer/RoundTrip.antt =====
-- From the message that the API creates to the document that the indexer writes: the event is
-- built, printed as JSON and as bytes by the publisher, and parsed by the consumer.
use message_management_api.Prelude.{ℕ, String, ◌≡◌, refl, ◌⊎◌, inl, inr, ◌∙◌, none, some}
use message_management_api.Json.{Json, Fields, null, obj}
use message_management_api.Effects.{ok, err, malformed_message}
use message_management_api.Runtime.{Runtime, Buffer}
use message_management_api.Domain.{
  Message, SearchMessageDocument, event_fields, MessageCreatedEvent,
}
use message_management_api.Application.CreateMessage.{build_message_created_event}
use message_management_api.Api.Validation.{valid_metadata}
use message_management_api.Indexer.Parse.{
  message_created, parse_envelope, parse_message_created_event, project_message_created_event,
}

-- The value that `publishJson` hands to Kafka, as the consumer receives it.
abbrev pub event_bytes : Runtime → MessageCreatedEvent → Buffer
event_bytes r event = r.utf8_bytes (r.json_text (obj (event_fields event)))

-- The document of a message.
abbrev pub message_document : Message → SearchMessageDocument
message_document m = record {
  id = m.id;
  conversation_id = m.conversation_id;
  sender_id = m.sender_id;
  content = m.content;
  timestamp = m.timestamp;
  metadata = m.metadata;
}

-- The event that the API writes for a message.
abbrev pub event_of : Runtime → String → Message → String → ℕ → MessageCreatedEvent
event_of = build_message_created_event

-- What the proofs use of the runtime: the bytes of the event are read back as its JSON, and the
-- message's timestamp is read back.
pub record ReadsBack (r : Runtime) (event : MessageCreatedEvent) (timestamp : ℕ) : Type 0 where
  pub json : r.json_parse (r.utf8_text (event_bytes r event)) ≡ ok (obj (event_fields event))
  pub iso : r.date_of (r.iso_text timestamp) ≡ some timestamp

module _ (r : Runtime) (uuid : String) (message : Message) (correlation_id : String) (now : ℕ)
    (h : ReadsBack r (event_of r uuid message correlation_id now) message.timestamp) where
  abbrev event : MessageCreatedEvent
  event = event_of r uuid message correlation_id now

  projected : project_message_created_event r event ≡ message_document message
  unfolding project_message_created_event build_message_created_event
  projected = simp h.iso

  read_back :
      parse_message_created_event r (some (event_bytes r event))
      ≡ parse_envelope r (obj (event_fields event))
  unfolding parse_message_created_event
  read_back = rw h.json refl

  parsed_absent :
      message.metadata ≡ none
      → parse_envelope r (obj (event_fields event)) ≡ ok (message_created event)
  unfolding parse_envelope build_message_created_event event_fields
  parsed_absent absent = simp (h.iso, absent)

  parsed_present :
      (fields : Fields)
      → message.metadata ≡ some (obj fields)
      → parse_envelope r (obj (event_fields event)) ≡ ok (message_created event)
  unfolding parse_envelope build_message_created_event event_fields
  parsed_present fields present = simp (h.iso, present)

  parsed_null :
      message.metadata ≡ some null
      → parse_envelope r (obj (event_fields event))
        ≡ err (malformed_message "Event payload metadata must be an object")
  unfolding parse_envelope build_message_created_event event_fields
  parsed_null e = simp (h.iso, e)

  -- The event of a message without metadata, or with an object for metadata, is parsed to itself,
  -- and the document that the consumer then indexes has the message's fields, its timestamp to the
  -- millisecond. The runtime reads back the bytes and the timestamp that it printed.
  pub parse_message_created_event-build :
      (message.metadata ≡ none) ⊎ ((fields : Fields) × (message.metadata ≡ some (obj fields)))
      → (parse_message_created_event r (some (event_bytes r event)) ≡ ok (message_created event))
        × (project_message_created_event r event ≡ message_document message)
  parse_message_created_event-build (inl absent) = (read_back ∙ parsed_absent absent, projected)
  parse_message_created_event-build (inr (fields, present)) =
      (read_back ∙ parsed_present fields present, projected)

  -- The request validation lets `null` through as metadata, and the event then has `null` for it:
  -- the consumer refuses every such event as malformed. The runtime reads back what it printed.
  pub null_metadata :
      (bytes : Json → ℕ)
      → message.metadata ≡ some null
      → (valid_metadata bytes message.metadata ≡ some message.metadata)
        × (parse_message_created_event r (some (event_bytes r event))
            ≡ err (malformed_message "Event payload metadata must be an object"))
  unfolding valid_metadata
  null_metadata bytes e = (rw e refl, read_back ∙ parsed_null e)
