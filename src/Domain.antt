-- ===== src/Domain.antt =====
-- libs/domain/src: messages, the message-created event, the outbox event, and the search types.
pub mod Ports
use message_management_api.Prelude.{ℕ, String, Bool, Option, none, some, List, if◌then◌else◌, map}
use message_management_api.Json.{Json, str, num, obj, Fields, end, field, natural, Number}
use message_management_api.Runtime.{Runtime}

-- `metadata` is a JSON object, or the `null` that the request validation lets through.
pub record Message : Type 0 where
  pub id : String
  pub conversation_id : String
  pub sender_id : String
  pub content : String
  pub timestamp : ℕ
  pub metadata : Option Json

pub record CreateMessageInput : Type 0 where
  pub conversation_id : String
  pub sender_id : String
  pub content : String
  pub timestamp : ℕ
  pub metadata : Option Json

pub data MessageSortOrder : Type 0 where
  asc desc : MessageSortOrder

pub record MessagePageCursor : Type 0 where
  pub id : String
  pub timestamp : ℕ

pub record ListMessagesQuery : Type 0 where
  pub conversation_id : String
  pub limit : ℕ
  pub sort_order : MessageSortOrder
  pub after : Option MessagePageCursor

abbrev pub message_created_event_type : String
message_created_event_type = "message.created"

abbrev pub message_created_event_version : ℕ
message_created_event_version = 1

abbrev pub message_created_topic : String
message_created_topic = "messages.message-created.v1"

pub record MessageCreatedPayload : Type 0 where
  pub id : String
  pub conversation_id : String
  pub sender_id : String
  pub content : String
  pub timestamp : String
  pub metadata : Option Json

pub record MessageCreatedEvent : Type 0 where
  pub event_id : String
  pub event_type : String
  pub event_version : Number
  pub occurred_at : String
  pub correlation_id : String
  pub payload : MessageCreatedPayload

unfoldable pub to_message_created_event_payload : Runtime → Message → MessageCreatedPayload
to_message_created_event_payload r message = record {
  id = message.id;
  conversation_id = message.conversation_id;
  sender_id = message.sender_id;
  content = message.content;
  timestamp = r.iso_text message.timestamp;
  metadata = message.metadata;
}

-- The properties of the payload object; an absent `metadata` is no property.
unfoldable pub payload_fields : MessageCreatedPayload → Fields
payload_fields p = field "id" (str p.id) (
    field "conversationId" (str p.conversation_id) (
      field "senderId" (str p.sender_id) (
        field "content" (str p.content) (
          field "timestamp" (str p.timestamp)
            (elim p.metadata [ none ↦ end | some metadata ↦ field "metadata" metadata end ])))))

-- The properties of the event object.
unfoldable pub event_fields : MessageCreatedEvent → Fields
unfolding payload_fields
event_fields e = field "eventId" (str e.event_id) (
    field "eventType" (str e.event_type) (
      field "eventVersion" (num e.event_version) (
        field "occurredAt" (str e.occurred_at) (
          field "correlationId" (str e.correlation_id)
            (field "payload" (obj (payload_fields e.payload)) end)))))

pub data OutboxEventStatus : Type 0 where
  pending publishing published failed : OutboxEventStatus

-- An outbox event as the repository returns it, its `_id` as text.
pub record OutboxEvent : Type 0 where
  pub id : String
  pub event_id : String
  pub event_type : String
  pub event_version : ℕ
  pub topic : String
  pub key : String
  pub payload : MessageCreatedEvent
  pub status : OutboxEventStatus
  pub attempts : ℕ
  pub next_attempt_at : ℕ
  pub locked_by : Option String
  pub locked_at : Option ℕ
  pub last_error : Option String
  pub created_at : ℕ
  pub published_at : Option ℕ

-- The types of `status: 'pending'` and `attempts: 0` have one value each.
pub record CreateOutboxEventInput : Type 0 where
  pub event_id : String
  pub event_type : String
  pub event_version : ℕ
  pub topic : String
  pub key : String
  pub payload : MessageCreatedEvent
  pub next_attempt_at : ℕ
  pub created_at : ℕ

pub record ClaimPublishableOutboxEventsInput : Type 0 where
  pub batch_size : ℕ
  pub locked_by : String
  pub lock_timeout_ms : ℕ
  pub now : ℕ

pub record MarkPublishedOutboxEventInput : Type 0 where
  pub id : String
  pub locked_by : String
  pub published_at : ℕ

pub record ScheduleOutboxRetryInput : Type 0 where
  pub id : String
  pub locked_by : String
  pub attempts : ℕ
  pub next_attempt_at : ℕ
  pub last_error : String

pub record MarkFailedOutboxEventInput : Type 0 where
  pub id : String
  pub locked_by : String
  pub attempts : ℕ
  pub failed_at : ℕ
  pub last_error : String

pub record OutboxPendingStats : Type 0 where
  pub pending_count : ℕ
  pub oldest_pending_created_at : Option ℕ

pub record SearchMessageDocument : Type 0 where
  pub id : String
  pub conversation_id : String
  pub sender_id : String
  pub content : String
  pub timestamp : ℕ
  pub metadata : Option Json

pub record SearchMessagesQuery : Type 0 where
  pub conversation_id : String
  pub q : String
  pub page : ℕ
  pub limit : ℕ

-- A hit is a message with a score, a number that the program only passes on. The timestamp is none
-- where the index held a text that is no date.
pub record SearchMessageHit : Type 0 where
  pub id : String
  pub conversation_id : String
  pub sender_id : String
  pub content : String
  pub timestamp : Option ℕ
  pub metadata : Option Json
  pub score : Number

pub record SearchPagination : Type 0 where
  pub page : ℕ
  pub limit : ℕ
  pub total : ℕ
  pub total_pages : ℕ

pub record SearchMessagesResult : Type 0 where
  pub hits : List SearchMessageHit
  pub pagination : SearchPagination
