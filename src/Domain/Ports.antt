-- ===== src/Domain/Ports.antt =====
-- libs/domain/src/ports: what the application and the publisher require of persistence and search.
use message_management_api.Prelude.{Bool, List}
use message_management_api.Effects.{Io}
use message_management_api.Domain.{
  Message, CreateMessageInput, ListMessagesQuery, OutboxEvent, CreateOutboxEventInput,
  ClaimPublishableOutboxEventsInput, MarkPublishedOutboxEventInput, ScheduleOutboxRetryInput,
  MarkFailedOutboxEventInput, OutboxPendingStats, SearchMessageDocument, SearchMessagesQuery,
  SearchMessagesResult,
}

pub record MessageRepositoryPort (W : Type 0) : Type 0 where
  pub create : CreateMessageInput → Io W Message
  pub list_by_conversation : ListMessagesQuery → Io W (List Message)

pub record OutboxRepositoryPort (W : Type 0) : Type 0 where
  pub create : CreateOutboxEventInput → Io W OutboxEvent
  pub claim_publishable : ClaimPublishableOutboxEventsInput → Io W (List OutboxEvent)
  pub mark_published : MarkPublishedOutboxEventInput → Io W Bool
  pub schedule_retry : ScheduleOutboxRetryInput → Io W Bool
  pub mark_failed : MarkFailedOutboxEventInput → Io W Bool
  pub get_pending_stats : Io W OutboxPendingStats

pub record MessageSearchPort (W : Type 0) : Type 0 where
  pub index_message : SearchMessageDocument → Io W (Unit {0})
  pub search_messages : SearchMessagesQuery → Io W SearchMessagesResult
