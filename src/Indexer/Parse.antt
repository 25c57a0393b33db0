-- ===== src/Indexer/Parse.antt =====
-- `parseMessageCreatedEvent`, `assertMessageCreatedEvent` and `projectMessageCreatedEvent` of
-- apps/search-indexer/src/message-created.consumer.ts.
pub mod Malformed
use message_management_api.Prelude.{ℕ, String, ◌&&◌, Option, none, some, str_eq, if◌then◌else◌}
use message_management_api.Json.{
  Json, Number, Fields, get, as_record, as_string, as_number, is_natural,
}
use message_management_api.Effects.{Result, ok, err, Exception, malformed_message, error_message?}
use message_management_api.Runtime.{Runtime, Buffer}
use message_management_api.Domain.{
  MessageCreatedEvent, MessageCreatedPayload, SearchMessageDocument, message_created_event_type,
  message_created_event_version,
}

-- A message-created event has passed `assertMessageCreatedEvent`.
pub data ParsedEvent : Type 0 where
  message_created : MessageCreatedEvent → ParsedEvent
  unknown_version : String → Number → ParsedEvent

infixl 5 ◌>>=◌
abbrev pub ◌>>=◌ : {A B : Type 0} → Result A → (A → Result B) → Result B
ok a >>= f = f a
err e >>= f = err e

-- What `condition || throw new MalformedMessageError(message)` lets through.
abbrev pub expect {ℓ} : {A : Type ℓ} → Option A → String → Result A
expect none message = err (malformed_message message)
expect (some a) message = ok a

abbrev pub decode_error : Exception → Exception
decode_error e = elim (error_message? e) [
  | none ↦ malformed_message "Invalid JSON"
  | some message ↦ malformed_message message
]

abbrev pub decoded : Result Json → Result Json
decoded (ok json) = ok json
decoded (err e) = err (decode_error e)

-- `payload['metadata'] !== undefined && !isRecord(payload['metadata'])`.
abbrev pub metadata_of : Option Json → Result (Option Json)
metadata_of none = ok none
metadata_of (some json) = elim (as_record (some json)) [
  | none ↦ err (malformed_message "Event payload metadata must be an object")
  | some fields ↦ ok (some json)
]

-- The checks of one `if` all throw the same error, so their order does not matter.
unfoldable pub assert_payload : Runtime → Fields → Result MessageCreatedPayload
unfolding get
assert_payload r payload = do
  let invalid : String = "Event payload is invalid"
  id ← expect (as_string (get "id" payload)) invalid
  conversation_id ← expect (as_string (get "conversationId" payload)) invalid
  sender_id ← expect (as_string (get "senderId" payload)) invalid
  content ← expect (as_string (get "content" payload)) invalid
  timestamp ← expect (as_string (get "timestamp" payload)) invalid
  date ← expect (r.date_of timestamp) invalid
  metadata ← metadata_of (get "metadata" payload)
  ok (record {
    id = id;
    conversation_id = conversation_id;
    sender_id = sender_id;
    content = content;
    timestamp = timestamp;
    metadata = metadata;
  })

unfoldable pub assert_message_created_event :
    Runtime → String → Number → Fields → Result MessageCreatedEvent
unfolding get assert_payload
assert_message_created_event r event_type event_version fields = do
  let missing : String = "Event envelope is missing required fields"
  event_id ← expect (as_string (get "eventId" fields)) missing
  occurred_at ← expect (as_string (get "occurredAt" fields)) missing
  correlation_id ← expect (as_string (get "correlationId" fields)) missing
  payload_fields ← expect (as_record (get "payload" fields)) missing
  payload ← assert_payload r payload_fields
  ok (record {
    event_id = event_id;
    event_type = event_type;
    event_version = event_version;
    occurred_at = occurred_at;
    correlation_id = correlation_id;
    payload = payload;
  })

-- The envelope: its type and version decide whether it is checked further.
unfoldable pub parse_envelope : Runtime → Json → Result ParsedEvent
unfolding get assert_message_created_event
parse_envelope r json = do
  let invalid : String = "Event envelope type/version are invalid"
  fields ← expect (as_record (some json)) "Event envelope must be an object"
  event_type ← expect (as_string (get "eventType" fields)) invalid
  event_version ← expect (as_number (get "eventVersion" fields)) invalid
  if str_eq event_type message_created_event_type
        && is_natural message_created_event_version event_version
      then (assert_message_created_event r event_type event_version fields >>= λ event.
          ok (message_created event))
      else ok (unknown_version event_type event_version)

unfoldable pub parse_message_created_event : Runtime → Option Buffer → Result ParsedEvent
unfolding parse_envelope
parse_message_created_event r none = err (malformed_message "Kafka message value is empty")
parse_message_created_event r (some value) = do
  json ← decoded (r.json_parse (r.utf8_text value))
  parse_envelope r json

abbrev date_or_invalid : Option ℕ → ℕ
date_or_invalid none = 0
date_or_invalid (some t) = t

-- The timestamp of a parsed event is a date.
unfoldable pub project_message_created_event : Runtime → MessageCreatedEvent → SearchMessageDocument
project_message_created_event r event = record {
  id = event.payload.id;
  conversation_id = event.payload.conversation_id;
  sender_id = event.payload.sender_id;
  content = event.payload.content;
  timestamp = date_or_invalid (r.date_of event.payload.timestamp);
  metadata = event.payload.metadata;
}
