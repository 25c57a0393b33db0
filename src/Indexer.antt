-- ===== src/Indexer.antt =====
-- apps/search-indexer/src/message-created.consumer.ts. The search port, the producer service, the
-- clock, the random numbers, the metrics, the log and the waiting are parameters.
pub mod Parse
pub mod Headers
pub mod RoundTrip
pub mod Retries
pub mod Outcomes
pub mod DeadLetters
pub mod Lifecycle
use message_management_api.Prelude.{
  ℕ, zero, suc, ◌+◌, ◌-◌, String, Bool, true, false, not, ◌||◌, Option, none, some, List, ◌==◌,
  str_eq, if◌then◌else◌, or_else,
}
use message_management_api.Json.{
  Json, Fields, end, field, str, get, as_record, as_number, as_string, is_natural, at_least,
}
use message_management_api.Effects.{
  Io, pure, throw, act, try_catch, ◌>>=◌, ◌>>◌, Exception, failure, malformed_message,
  search_unavailable, http, value, Result, ok, err, error_name?,
}
use message_management_api.Runtime.{Runtime, Buffer, error_text}
use message_management_api.Domain.{SearchMessageDocument, MessageCreatedEvent}
use message_management_api.Domain.Ports.{MessageSearchPort}
use message_management_api.Messaging.Producer.{PublishRawMessageInput, RecordValue, absent, buffer}
use message_management_api.Messaging.Topics.{message_created_dlq_topic}
use message_management_api.Publisher.RetryDelay.{calculate_index_retry_delay_ms}
use Parse.{
  ParsedEvent, message_created, unknown_version, parse_message_created_event,
  project_message_created_event,
}
use Headers.{EachMessagePayload, build_dlq_headers, decode_key}

abbrev pub max_index_attempts : ℕ
max_index_attempts = 5

-- The properties `name` and `meta` of what was thrown, where it is an object. An error of one of
-- the program's classes or of Nest has no `meta`.
abbrev pub error_properties : Exception → Option (Option String × Option Json)
error_properties (failure name message meta) = some (some name, meta)
error_properties (value v) = elim (as_record (some v)) [
  | none ↦ none
  | some fields ↦ some (as_string (get "name" fields), get "meta" fields)
]
error_properties e = some (error_name? e, none)

-- `getErrorStatusCode`.
abbrev pub status_code_of : Option Json → Option Json
status_code_of meta = elim (as_record meta) [ none ↦ none | some fields ↦ get "statusCode" fields ]

abbrev pub is_retryable_status : Option Json → Bool
is_retryable_status meta = elim (as_number (status_code_of meta)) [
  | none ↦ false
  | some code ↦ is_natural 408 code || is_natural 429 code || at_least 500 code
]

unfoldable pub is_retryable_elasticsearch_error : Exception → Bool
unfolding get
is_retryable_elasticsearch_error error = elim (error_properties error) [
  | none ↦ false
  | some (name, meta) ↦
      str_eq (or_else name "") "ConnectionError"
      || str_eq (or_else name "") "TimeoutError"
      || is_retryable_status meta
]

abbrev pub error_reason : Exception → String
error_reason (malformed_message m) = "malformed"
error_reason _ = "indexing_failed"

-- What the consumer holds or calls.
pub record Consumer (W : Type 0) : Type 0 where
  pub message_search : MessageSearchPort W
  pub publish_raw : PublishRawMessageInput → Io W (Unit {0})
  pub new_date : Io W ℕ
  pub random : Io W ℕ
  pub delay : ℕ → Io W (Unit {0})
  pub record_search_indexer_indexed : String → W → W
  pub record_search_indexer_index_duration : String → W → W
  pub record_search_indexer_dlq : String → String → W → W
  pub record_search_indexer_skipped : String → String → W → W
  pub log_unknown_version : EachMessagePayload → W → W
  pub log_dlq : EachMessagePayload → String → W → W

module _ {W : Type 0} (r : Runtime) (c : Consumer W) where
  -- The attempts that are left after this one, and its number.
  unfoldable pub index_attempts : ℕ → ℕ → SearchMessageDocument → Io W (Unit {0})
  index_attempts zero attempt document = try_catch (c.message_search.index_message document) throw
  index_attempts (suc left) attempt document =
      try_catch (c.message_search.index_message document) λ error.
        elim (is_retryable_elasticsearch_error error) [
          | false ↦ throw error
          | true ↦ do
            random ← c.random
            c.delay (calculate_index_retry_delay_ms attempt random)
            index_attempts left (attempt + 1) document
        ]

  unfoldable pub index_with_retry : SearchMessageDocument → Io W (Unit {0})
  unfolding index_attempts
  index_with_retry document = index_attempts (max_index_attempts - 1) 1 document

  abbrev pub raw_value : Option Buffer → RecordValue
  raw_value none = absent
  raw_value (some bytes) = buffer bytes

  unfoldable pub publish_to_dlq :
      EachMessagePayload → Exception → Option ParsedEvent → Io W (Unit {0})
  unfolding build_dlq_headers decode_key
  publish_to_dlq payload error parsed = do
    now ← c.new_date
    c.publish_raw (record {
      topic = message_created_dlq_topic;
      key = decode_key r payload.key;
      value = raw_value payload.value;
      headers = some (build_dlq_headers r now payload error parsed);
    })
    act (c.record_search_indexer_dlq payload.topic (error_reason error))
    act (c.log_dlq payload (error_reason error))

  -- The rest of the block that `handleMessage` guards, once the value is parsed.
  unfoldable pub handle_parsed : EachMessagePayload → ParsedEvent → Io W (Unit {0})
  handle_parsed payload (unknown_version event_type event_version) = do
    act (c.record_search_indexer_skipped payload.topic "unknown_version")
    act (c.log_unknown_version payload)
  handle_parsed payload (message_created event) = do
    index_with_retry (project_message_created_event r event)
    act (c.record_search_indexer_index_duration payload.topic)
    act (c.record_search_indexer_indexed payload.topic)

  unfoldable pub after_parse : EachMessagePayload → Result ParsedEvent → Io W (Unit {0})
  unfolding handle_parsed
  after_parse payload (err error) = publish_to_dlq payload error none
  after_parse payload (ok parsed) =
      try_catch (handle_parsed payload parsed) λ error. publish_to_dlq payload error (some parsed)

  unfoldable pub handle_message : EachMessagePayload → Io W (Unit {0})
  unfolding after_parse
  handle_message payload = after_parse payload (parse_message_created_event r payload.value)
