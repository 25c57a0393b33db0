-- ===== src/Indexer/Parse/Malformed.antt =====
-- Which errors `parseMessageCreatedEvent` throws.
use message_management_api.Prelude.{
  String, ◌≡◌, Option, none, some, Bool, true, false, str_eq, ◌&&◌, if◌then◌else◌,
}
use message_management_api.Json.{
  Json, Number, Fields, get, as_record, as_string, as_number, is_natural,
}
use message_management_api.Effects.{Result, ok, err, Exception, malformed_message, error_message?}
use message_management_api.Runtime.{Runtime, Buffer}
use message_management_api.Domain.{message_created_event_type, message_created_event_version}
use message_management_api.Indexer.Parse.{
  message_created, unknown_version, ◌>>=◌, expect, decoded, metadata_of, assert_payload,
  assert_message_created_event, parse_envelope, parse_message_created_event,
}

-- A `MalformedMessageError`.
abbrev pub IsMalformed : Exception → Type 0
IsMalformed e = (message : String) × (e ≡ malformed_message message)

record Malformed {A : Type 0} (m : Result A) : Type 0 where
  throws : (e : Exception) → m ≡ err e → IsMalformed e

returns : {A : Type 0} (a : A) → Malformed (ok a)
returns a = record { throws = λ e h. cc }

malformed : {A : Type 0} (message : String) → Malformed {A = A} (err (malformed_message message))
malformed message = record { throws = λ e h. (message, cc) }

chain :
    {A B : Type 0} (m : Result A) (f : A → Result B)
    → Malformed m
    → ((a : A) → Malformed (f a))
    → Malformed (m >>= f)
chain (ok a) f h k = k a
chain (err e) f h k = record { throws = λ x e. h.throws x cc }

expected : {A : Type 0} (a : Option A) (message : String) → Malformed (expect a message)
expected none message = malformed message
expected (some a) message = returns a

metadata_of-Malformed : (json : Option Json) → Malformed (metadata_of json)
metadata_of-Malformed none = returns none
metadata_of-Malformed (some json) = go (as_record (some json))
  where
    go :
        (fields : Option Fields)
        → Malformed (elim fields as (λ _. Result (Option Json)) [
          | none ↦ err (malformed_message "Event payload metadata must be an object")
          | some fields ↦ ok (some json)
        ])
    go none = malformed "Event payload metadata must be an object"
    go (some fields) = returns (some json)

decoded-Malformed : (json : Result Json) → Malformed (decoded json)
decoded-Malformed (ok json) = returns json
decoded-Malformed (err e) = go (error_message? e)
  where
    go :
        (message : Option String)
        → Malformed {A = Json} (
            err (elim message as (λ _. Exception) [
              | none ↦ malformed_message "Invalid JSON"
              | some message ↦ malformed_message message
            ]))
    go none = malformed "Invalid JSON"
    go (some message) = malformed message

invalid_payload : String
invalid_payload = "Event payload is invalid"

missing_fields : String
missing_fields = "Event envelope is missing required fields"

invalid_envelope : String
invalid_envelope = "Event envelope type/version are invalid"

assert_payload-Malformed : (r : Runtime) (fields : Fields) → Malformed (assert_payload r fields)
unfolding assert_payload get invalid_payload
assert_payload-Malformed r fields =
    let text : String → Option String = λ name. as_string (get name fields) in
    chain _ _ (expected (text "id") invalid_payload) λ id.
      chain _ _ (expected (text "conversationId") invalid_payload) λ conversation_id.
        chain _ _ (expected (text "senderId") invalid_payload) λ sender_id.
          chain _ _ (expected (text "content") invalid_payload) λ content.
            chain _ _ (expected (text "timestamp") invalid_payload) λ timestamp.
              chain _ _ (expected (r.date_of timestamp) invalid_payload) λ date.
                chain _ _ (metadata_of-Malformed (get "metadata" fields)) λ metadata.
                  returns (record {
                    id = id;
                    conversation_id = conversation_id;
                    sender_id = sender_id;
                    content = content;
                    timestamp = timestamp;
                    metadata = metadata;
                  })

assert_event-Malformed :
    (r : Runtime) (event_type : String) (event_version : Number) (fields : Fields)
    → Malformed (assert_message_created_event r event_type event_version fields)
unfolding assert_message_created_event get missing_fields
assert_event-Malformed r event_type event_version fields =
    let text : String → Option String = λ name. as_string (get name fields) in
    chain _ _ (expected (text "eventId") missing_fields) λ event_id.
      chain _ _ (expected (text "occurredAt") missing_fields) λ occurred_at.
        chain _ _ (expected (text "correlationId") missing_fields) λ correlation_id.
          chain _ _ (expected (as_record (get "payload" fields)) missing_fields) λ payload_fields.
            chain _ _ (assert_payload-Malformed r payload_fields) λ payload. returns (record {
              event_id = event_id;
              event_type = event_type;
              event_version = event_version;
              occurred_at = occurred_at;
              correlation_id = correlation_id;
              payload = payload;
            })

parse_envelope-Malformed : (r : Runtime) (json : Json) → Malformed (parse_envelope r json)
unfolding parse_envelope get invalid_envelope
parse_envelope-Malformed r json =
    chain _ _ (expected (as_record (some json)) "Event envelope must be an object") λ fields.
      chain _ _ (expected (as_string (get "eventType" fields)) invalid_envelope) λ event_type.
        chain _ _ (expected (as_number (get "eventVersion" fields)) invalid_envelope)
          λ event_version. either event_type event_version fields (
            str_eq event_type message_created_event_type
            && is_natural message_created_event_version event_version)
  where
    either :
        (event_type : String) (event_version : Number) (fields : Fields) (b : Bool)
        → Malformed (
            if b
            then (assert_message_created_event r event_type event_version fields >>= λ event.
                ok (message_created event))
            else ok (unknown_version event_type event_version))
    either event_type event_version fields true =
        chain _ _ (assert_event-Malformed r event_type event_version fields)
          λ event. returns (message_created event)
    either event_type event_version fields false =
        returns (unknown_version event_type event_version)

parsed-Malformed :
    (r : Runtime) (value : Option Buffer) → Malformed (parse_message_created_event r value)
unfolding parse_message_created_event
parsed-Malformed r none = malformed "Kafka message value is empty"
parsed-Malformed r (some value) =
    chain _ _ (decoded-Malformed (r.json_parse (r.utf8_text value)))
      λ json. parse_envelope-Malformed r json

pub parse_message_created_event-IsMalformed :
    (r : Runtime) (value : Option Buffer) (e : Exception)
    → parse_message_created_event r value ≡ err e
    → IsMalformed e
parse_message_created_event-IsMalformed r value e h = (parsed-Malformed r value).throws e h
