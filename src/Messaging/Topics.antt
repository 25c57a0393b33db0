-- ===== src/Messaging/Topics.antt =====
-- libs/messaging/src/kafka-topic-initializer.service.ts and kafka.constants.ts.
pub mod Creation
use message_management_api.Prelude.{ℕ, String, Bool, not, List, [], ◌∷◌, filter, map, contains_text}
use message_management_api.Effects.{Io, act, finally_await, ◌>>=◌, ◌>>◌}
use message_management_api.Domain.{message_created_topic}

abbrev pub message_created_dlq_topic : String
message_created_dlq_topic = "messages.message-created.v1.dlq"

abbrev pub message_created_search_indexer_group : String
message_created_search_indexer_group = "message-management-api.search-indexer"

pub record TopicDefinition : Type 0 where
  pub num_partitions : ℕ
  pub topic : String

abbrev pub kafka_topic_definitions : List TopicDefinition
kafka_topic_definitions =
    record { num_partitions = 3; topic = message_created_topic }
    ∷ record { num_partitions = 3; topic = message_created_dlq_topic }
    ∷ []

-- A kafkajs admin client.
pub record Admin (W : Type 0) : Type 0 where
  pub connect : Io W (Unit {0})
  pub list_topics : Io W (List String)
  pub create_topics : List TopicDefinition → Io W Bool
  pub disconnect : Io W (Unit {0})

unfoldable pub missing_topics : List String → List TopicDefinition
missing_topics existing = filter (λ d. not (contains_text d.topic existing)) kafka_topic_definitions

-- `log` writes the line `{ created, topics }`.
unfoldable pub initialize_topics :
    {W : Type 0} → Admin W → (Bool → List String → W → W) → Io W (Unit {0})
unfolding missing_topics
initialize_topics admin log = do
  admin.connect
  finally_await
      (do
        existing ← admin.list_topics
        elim (missing_topics existing) [
          | [] ↦ act (log Bool.false (map (λ d. d.topic) kafka_topic_definitions))
          | d ∷ ds ↦ do
            created ← admin.create_topics (d ∷ ds)
            act (log created (map (λ t. t.topic) (d ∷ ds)))
        ])
      admin.disconnect
