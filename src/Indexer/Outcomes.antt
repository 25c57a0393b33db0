-- ===== src/Indexer/Outcomes.antt =====
-- What becomes of a delivered message: `handleMessage` of
-- apps/search-indexer/src/message-created.consumer.ts with the producer service over Kafka.
use message_management_api.Prelude.{ℕ, String, ◌≡◌, ◌⊎◌, Option, none, some, List, ◌∷◌}
use message_management_api.Effects.{Io, ok, err, Exception}
use message_management_api.Json.{Number}
use message_management_api.Runtime.{Runtime}
use message_management_api.Domain.{MessageCreatedEvent}
use message_management_api.Persistence.Collection.{Does}
use message_management_api.Messaging.Producer.{ProducerRecord, encode_headers}
use message_management_api.Messaging.Topics.{message_created_dlq_topic}
use message_management_api.Indexer.{Consumer, index_with_retry}
use message_management_api.Indexer.DeadLetters.{Broker, IsBroker, SendsNothing, over, value_bytes}
use message_management_api.Indexer.Headers.{EachMessagePayload, build_dlq_headers}
use message_management_api.Indexer.Parse.{
  ParsedEvent, message_created, unknown_version, parse_message_created_event,
  project_message_created_event,
}
use message_management_api.Indexer.Parse.Malformed.{IsMalformed}

module _ {W : Type 0} (r : Runtime) (broker : Broker W) (laws : IsBroker r broker) (c : Consumer W)
    (silent : SendsNothing c broker.sent) where
  abbrev sent : W → List ProducerRecord
  sent = broker.sent

  module _ (payload : EachMessagePayload) where
    -- Why a message is given up, in a world: it does not parse, or its document was not indexed, with
    -- the retries that there are.
    abbrev pub GivenUp : Exception → Option ParsedEvent → W → Type 0
    GivenUp e parsed w =
        ((parse_message_created_event r payload.value ≡ err e) × IsMalformed e × (parsed ≡ none))
        ⊎ ((event : MessageCreatedEvent) × (parse_message_created_event r payload.value
              ≡ ok (message_created event))
            × ((index_with_retry r (over r broker.producer c)
                  (project_message_created_event r event) w).0
                ≡ err e)
            × (parsed ≡ some (message_created event)))

    -- One dead letter with the value of the message, and headers for the error and the event, unless a
    -- call throws.
    abbrev pub Buried : Exception → Option ParsedEvent → Io W (Unit {0}) → W → Type 0
    Buried e parsed m w =
        (dead : ProducerRecord) × (now : ℕ) × Does sent m w tt (dead ∷ sent w)
        × (dead.topic ≡ message_created_dlq_topic)
        × (value_bytes r dead.value ≡ payload.value)
        × (dead.headers ≡ encode_headers r (some (build_dlq_headers r now payload e parsed)))

    -- How a message ends.
    abbrev pub Ending : Io W (Unit {0}) → W → Type 0
    Ending m w =
        ((event_type : String) × (version : Number) × (parse_message_created_event r payload.value
            ≡ ok (unknown_version event_type version))
          × ((m w).0 ≡ ok tt)
          × (sent (m w).1 ≡ sent w))
        ⊎ ((event : MessageCreatedEvent) × (parse_message_created_event r payload.value
              ≡ ok (message_created event))
            × ((index_with_retry r (over r broker.producer c)
                  (project_message_created_event r event) w).0
                ≡ ok tt)
            × ((m w).0 ≡ ok tt)
            × (sent (m w).1 ≡ sent w))
        ⊎ ((e : Exception) × (parsed : Option ParsedEvent) × GivenUp e parsed w
            × Buried e parsed m w)
