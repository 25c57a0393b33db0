-- ===== src/Tests/MessageExamples.antt =====
-- The theorems on messages, from the request to the index, at concrete inputs.
use message_management_api.Prelude.{
  ℕ, ◌+◌, ◌≡◌, ◌≢◌, refl, inl, true, String, Option, none, some, List, [], ◌∷◌, All, arith,
}
use message_management_api.Json.{Json, obj, null, get}
use message_management_api.Effects.{Io, Result, ok, err, malformed_message}
use message_management_api.Runtime.{Runtime}
use message_management_api.Domain.{Message, MessageCreatedEvent, asc, desc, event_fields}
use message_management_api.Domain.Ports.{MessageRepositoryPort, OutboxRepositoryPort}
use message_management_api.Persistence.Schemas.{MessageEntity}
use message_management_api.Persistence.MessageRepository.{
  MessageModel, map_message_document, message_repository,
}
use message_management_api.Persistence.OutboxRepository.{map_outbox_event}
use message_management_api.Persistence.Transactions.{Connection, with_transaction}
use message_management_api.Application.CreateMessage.{
  CreateMessageCommand, build_message_created_event, execute,
}
use message_management_api.Application.CreateMessage.Atomicity.{Written}
use message_management_api.Application.Cursor
use message_management_api.Application.Cursor.{
  decode_message_cursor, encode_message_cursor, decode_message_cursor-encode, bad_request,
}
use message_management_api.Application.ListMessages.Pagination.{
  HasCursor, collect, listing, collect-listing,
}
use message_management_api.Api.Validation.{valid_metadata}
use message_management_api.Indexer.{Consumer, index_with_retry}
use message_management_api.Indexer.Parse.{
  message_created, parse_message_created_event, project_message_created_event,
}
use message_management_api.Indexer.RoundTrip.{
  ReadsBack, event_of, event_bytes, message_document, parse_message_created_event-build,
  null_metadata,
}
use message_management_api.Indexer.Retries.{Bounded, index_with_retry-Bounded}
use message_management_api.Tests.Data.{
  cursors, runtime, memory, held_document, message, message_entity, timeout,
}

-- The runtime that reads the bytes of the message's event.
abbrev printed : Option Json → MessageCreatedEvent
printed metadata = event_of cursors "u" (message metadata) "r" 7

abbrev reader : Option Json → Runtime
reader metadata = runtime λ s. obj (event_fields (printed metadata))

abbrev read : Option Json → MessageCreatedEvent
read metadata = event_of (reader metadata) "u" (message metadata) "r" 7

reader-ReadsBack : (metadata : Option Json) → ReadsBack (reader metadata) (read metadata) 5
unfolding build_message_created_event event_fields
reader-ReadsBack metadata = record { json = refl; iso = refl }

parse_message_created_event-build_example :
    (parse_message_created_event (reader none) (some (event_bytes (reader none) (read none)))
      ≡ ok (message_created (read none)))
    × (project_message_created_event (reader none) (read none) ≡ message_document (message none))
parse_message_created_event-build_example =
    parse_message_created_event-build (reader none) "u" (message none) "r" 7 (reader-ReadsBack none)
      (inl refl)

null_metadata_example :
    (valid_metadata (λ json. 4) (some null) ≡ some (some null))
    × (parse_message_created_event
          (reader (some null))
          (some (event_bytes (reader (some null)) (read (some null))))
        ≡ err (malformed_message "Event payload metadata must be an object"))
null_metadata_example =
    null_metadata (reader (some null)) "u" (message (some null)) "r" 7
      (reader-ReadsBack (some null)) (λ json. 4) refl

-- A consumer whose index always times out; the world counts the calls of the index.
abbrev consumer : Consumer ℕ
consumer = record {
  message_search = record {
    index_message = λ d n. (err timeout, n + 1);
    search_messages = λ q n. (err timeout, n);
  };
  publish_raw = λ m n. (ok tt, n);
  new_date = λ n. (ok 30, n);
  random = λ n. (ok 0, n);
  delay = λ ms n. (ok tt, n);
  record_search_indexer_indexed = λ t n. n;
  record_search_indexer_index_duration = λ t n. n;
  record_search_indexer_dlq = λ t reason n. n;
  record_search_indexer_skipped = λ t reason n. n;
  log_unknown_version = λ p n. n;
  log_dlq = λ p reason n. n;
}

abbrev calls : ℕ → ℕ
calls n = n

index_with_retry-Bounded_example :
    Bounded cursors consumer calls
      (λ d w. refl)
      (λ w. refl)
      (λ w. (0, refl))
      (λ n w. refl)
      (λ n w. refl)
      5
      0
      (index_with_retry cursors consumer (message_document (message none)) 0)
index_with_retry-Bounded_example =
    index_with_retry-Bounded cursors consumer calls (λ d w. refl) (λ w. refl) (λ w. (0, refl))
      (λ n w. refl) (λ n w. refl) (message_document (message none)) 0

message-ReadsBack : Cursor.ReadsBack cursors asc (message none)
unfolding encode_message_cursor Cursor.is_object_id_text get
message-ReadsBack = record { json = refl; iso = refl; hex = refl }

decode_message_cursor-encode_example :
    decode_message_cursor cursors (encode_message_cursor cursors (message none) asc) desc
    ≡ err (bad_request "cursor sortOrder does not match request sortOrder")
decode_message_cursor-encode_example =
    decode_message_cursor-encode cursors (message none) asc desc message-ReadsBack

abbrev messages : List MessageEntity
messages = message_entity 2 ∷ message_entity 1 ∷ []

abbrev model : MessageModel (List MessageEntity)
model = memory

entity-HasCursor :
    HasCursor cursors asc (message_entity 1) × HasCursor cursors asc (message_entity 2)
unfolding encode_message_cursor Cursor.is_object_id_text map_message_document get
entity-HasCursor = (
  record {
    cursor = record { json = refl; iso = refl; hex = refl };
    object_id = refl;
    filled = refl;
  },
  record {
    cursor = record { json = refl; iso = refl; hex = refl };
    object_id = refl;
    filled = refl;
  },
)

listing-HasCursor : All (HasCursor cursors asc) (listing "c" asc messages)
listing-HasCursor = (entity-HasCursor.0, (entity-HasCursor.1, tt))

different : ◌≢◌ {A = ℕ} 1 2
different = omega arith

collect-listing_example :
    collect cursors (message_repository cursors model) 3 "c" 1 asc none messages ≡ (
      ok (
          map_message_document cursors (message_entity 1)
          ∷ map_message_document cursors (message_entity 2)
          ∷ []),
      messages,
    )
collect-listing_example =
    collect-listing cursors model messages messages (λ p before n. refl) "c" asc
      ((different, tt), (tt, tt)) listing-HasCursor 0 3 (omega arith)

-- Transactions in memory: what a failing operation did is undone.
abbrev rolled : {W : Type 0} → Result Message → W → W → Result Message × W
rolled (ok a) before after = (ok a, after)
rolled (err e) before after = (err e, before)

abbrev connection : Connection (List String) Message
connection = record {
  start_session = λ w. (ok tt, w);
  with_transaction = λ operation w. rolled (operation w).0 w (operation w).1;
  end_session = λ w. (ok tt, w);
}

abbrev whole : List String → List String
whole w = w

abbrev message_port : MessageRepositoryPort (List String)
message_port = record {
  create = λ input w. (ok (message input.metadata), "message" ∷ w);
  list_by_conversation = λ query w. (ok [], w);
}

abbrev outbox_port : OutboxRepositoryPort (List String)
outbox_port = record {
  create = λ input w. (ok (map_outbox_event cursors held_document), "event" ∷ w);
  claim_publishable = λ input w. (ok [], w);
  mark_published = λ input w. (ok true, w);
  schedule_retry = λ input w. (ok true, w);
  mark_failed = λ input w. (ok true, w);
  get_pending_stats = λ w. (err timeout, w);
}

abbrev command : CreateMessageCommand
command = record {
  conversation_id = "c";
  sender_id = "s";
  content = "hello";
  correlation_id = "r";
  metadata = none;
}

abbrev clock : Io (List String) ℕ
clock w = (ok 5, w)

abbrev uuids : Io (List String) String
uuids w = (ok "u", w)

abbrev answer : Result Message × List String
answer =
    execute cursors message_port outbox_port clock uuids (with_transaction connection) command []

abbrev RecordedHere : Message → Type 0
RecordedHere m =
    (now : ℕ) × (before : List String) × (after : List String) × (before ≡ [])
    × Written cursors message_port outbox_port clock uuids command now m before after
    × (answer.1 ≡ after)
