-- ===== src/Persistence/Schemas.antt =====
-- libs/persistence/src/schemas: the documents of the two collections. An `_id` is the number that
-- the twelve bytes of its ObjectId hold, which has the order of `_id`.
use message_management_api.Prelude.{ℕ, String, Option}
use message_management_api.Json.{Json}
use message_management_api.Domain.{MessageCreatedEvent, OutboxEventStatus}

pub record MessageEntity : Type 0 where
  pub _id : ℕ
  pub conversation_id : String
  pub sender_id : String
  pub content : String
  pub timestamp : ℕ
  pub metadata : Option Json

pub record OutboxEventEntity : Type 0 where
  pub _id : ℕ
  pub event_id : String
  pub event_type : String
  pub event_version : ℕ
  pub topic : String
  pub key : String
  pub payload : MessageCreatedEvent
  pub status : OutboxEventStatus
  pub attempts : ℕ
  pub next_attempt_at : ℕ
  pub locked_by : Option String
  pub locked_at : Option ℕ
  pub last_error : Option String
  pub created_at : ℕ
  pub published_at : Option ℕ
