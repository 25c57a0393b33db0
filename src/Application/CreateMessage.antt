-- ===== src/Application/CreateMessage.antt =====
-- libs/application/src/messages/create-message.service.ts.
pub mod Atomicity
use message_management_api.Prelude.{ℕ, String, Option}
use message_management_api.Json.{Json, natural}
use message_management_api.Effects.{Io, pure, ◌>>=◌}
use message_management_api.Runtime.{Runtime}
use message_management_api.Domain.{
  Message, MessageCreatedEvent, CreateOutboxEventInput, message_created_event_type,
  message_created_event_version, message_created_topic, to_message_created_event_payload,
}
use message_management_api.Domain.Ports.{MessageRepositoryPort, OutboxRepositoryPort}

pub record CreateMessageCommand : Type 0 where
  pub conversation_id : String
  pub sender_id : String
  pub content : String
  pub correlation_id : String
  pub metadata : Option Json

unfoldable pub build_message_created_event :
    Runtime → String → Message → String → ℕ → MessageCreatedEvent
unfolding to_message_created_event_payload
build_message_created_event r uuid message correlation_id occurred_at = record {
  event_id = uuid;
  event_type = message_created_event_type;
  event_version = natural message_created_event_version;
  occurred_at = r.iso_text occurred_at;
  correlation_id = correlation_id;
  payload = to_message_created_event_payload r message;
}

unfoldable pub outbox_input : MessageCreatedEvent → Message → ℕ → CreateOutboxEventInput
outbox_input event message now = record {
  event_id = event.event_id;
  event_type = event.event_type;
  event_version = message_created_event_version;
  topic = message_created_topic;
  key = message.conversation_id;
  payload = event;
  next_attempt_at = now;
  created_at = now;
}

module _ {W : Type 0} (r : Runtime) (messages : MessageRepositoryPort W)
    (outbox : OutboxRepositoryPort W) (new_date : Io W ℕ) (random_uuid : Io W String) where
  -- The operation that runs in the transaction.
  unfoldable pub create_in_transaction : CreateMessageCommand → ℕ → Io W Message
  unfolding build_message_created_event outbox_input
  create_in_transaction command now = do
    message ← messages.create (record {
      conversation_id = command.conversation_id;
      sender_id = command.sender_id;
      content = command.content;
      timestamp = now;
      metadata = command.metadata;
    })
    uuid ← random_uuid
    created ← outbox.create (
        outbox_input (build_message_created_event r uuid message command.correlation_id now) message
          now)
    pure message

  unfoldable pub execute : (Io W Message → Io W Message) → CreateMessageCommand → Io W Message
  unfolding create_in_transaction
  execute with_transaction command = do
    now ← new_date
    with_transaction (create_in_transaction command now)
