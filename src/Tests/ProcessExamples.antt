-- ===== src/Tests/ProcessExamples.antt =====
-- The theorems on the processes around the outbox at concrete inputs.
use message_management_api.Prelude.{
  ℕ, ◌+◌, ◌≤◌, ◌≡◌, arith, ◌⊎◌, refl, inl, inr, Bool, true, false, String, none, some, List, [],
  ◌∷◌, ◌++◌, ◌&&◌, contains_text, Bool-cases,
}
use message_management_api.Json.{str}
use message_management_api.Effects.{ok, err}
use message_management_api.Persistence.Collection.{Does}
use message_management_api.Messaging.Producer.{
  Producer, ProducerRecord, PublishJsonMessageInput, KafkaProducerService,
}
use message_management_api.Messaging.Producer
use message_management_api.Messaging.Producer.Lifecycle.{
  json_record, not_connected, publish_json-lifecycle,
}
use message_management_api.Messaging.Topics.{Admin, initialize_topics, message_created_dlq_topic}
use message_management_api.Messaging.Topics.Creation.{
  IsAdmin, names, extended, initialize_topics-Does,
}
use message_management_api.Domain.{message_created_topic}
use message_management_api.Search.EsMessageSearch.{messages_read_alias, messages_write_alias}
use message_management_api.Indexer.Lifecycle.{
  ConsumerClient, crashes, stops, on_events, on_module_init, on_application_shutdown, is_running,
  is_running-lifecycle,
}
use message_management_api.Health.Indicators.{Indicator, connected_state}
use message_management_api.Health.Controllers.{
  Process, liveness, api_readiness, publisher_readiness, indexer_readiness,
}
use message_management_api.Health.Readiness.{
  answers, AllAnswer, SomeThrows, Between, IsTerminus, FindsAlias, FindsTopic, readiness-finds,
}
use message_management_api.Observability.Metrics.Counts.{
  Recording, http_request, outbox_published, outbox_pending_stats, search_indexer_dlq,
}
use message_management_api.Tests.Data.{cursors, timeout}

abbrev recordings : List Recording
recordings =
    outbox_published "t" "e"
    ∷ search_indexer_dlq "t" "malformed"
    ∷ outbox_published "t" "e"
    ∷ outbox_pending_stats 3 10
    ∷ http_request (("method", "GET") ∷ [])
    ∷ []

-- A producer that counts what it sends.
abbrev counting : Producer ℕ
counting = record {
  connect = λ n. (ok tt, n);
  disconnect = λ n. (ok tt, n);
  send = λ m n. (ok tt, n + 1);
}

abbrev note : PublishJsonMessageInput
note = record { topic = "t"; key = "k"; payload = str "p"; headers = none }

abbrev running_service : KafkaProducerService ℕ
running_service = record { producer = some counting; connected = true }

abbrev stopped_service : KafkaProducerService ℕ
stopped_service = record { producer = some counting; connected = false }

starts : (Producer.on_module_init counting 0).0 ≡ ok running_service
unfolding Producer.on_module_init
starts = refl

shuts_down : (Producer.on_application_shutdown running_service 0).0 ≡ ok stopped_service
unfolding Producer.on_application_shutdown
shuts_down = refl

publish_json-lifecycle_example :
    (true ≡ true)
    × (Producer.publish_json cursors running_service note 4
        ≡ counting.send (json_record cursors note) 4)
    × (false ≡ false)
    × (Producer.publish_json cursors stopped_service note 4 ≡ (err not_connected, 4))
    × (Producer.on_application_shutdown stopped_service 4 ≡ (ok stopped_service, 4))
publish_json-lifecycle_example =
    publish_json-lifecycle cursors counting 0 0 4 running_service stopped_service note starts
      shuts_down

abbrev admin : Admin (List String)
admin = record {
  connect = λ ts. (ok tt, ts);
  list_topics = λ ts. (ok ts, ts);
  create_topics = λ ds ts. (ok true, names ds ++ ts);
  disconnect = λ ts. (ok tt, ts);
}

abbrev silent_log : Bool → List String → List String → List String
silent_log created names ts = ts

admin-IsAdmin : IsAdmin admin silent_log (λ ts. ts)
admin-IsAdmin = record {
  connect = λ w. refl;
  list_topics = λ w. inl (refl, refl);
  create_topics = λ ds w. (true, inl (refl, refl));
  disconnect = λ w. refl;
  logs = λ created ts w. refl;
}

abbrev some_topics : List String
some_topics = "other" ∷ message_created_topic ∷ []

initialize_topics-Does_example :
    Does (λ ts. ts) (initialize_topics admin silent_log) some_topics tt (extended some_topics)
    × (contains_text message_created_topic (extended some_topics) ≡ true)
    × (contains_text message_created_dlq_topic (extended some_topics) ≡ true)
    × (extended (extended some_topics) ≡ extended some_topics)
initialize_topics-Does_example =
    initialize_topics-Does admin silent_log (λ ts. ts) admin-IsAdmin some_topics

abbrev kafka_consumer : ConsumerClient ℕ
kafka_consumer = record {
  connect = λ n. (ok tt, n);
  subscribe = λ topic n. (ok tt, n);
  disconnect = λ n. (err timeout, n);
}

begins : (on_module_init kafka_consumer 0).0.0 ≡ ok tt
unfolding on_module_init
begins = refl

is_running-lifecycle_example :
    (is_running (on_events (crashes true ∷ stops ∷ []) (on_module_init kafka_consumer 0).0.1)
      ≡ false)
    × (is_running (
          on_events
            (crashes true ∷ [])
            (on_application_shutdown kafka_consumer
              (on_events (crashes true ∷ stops ∷ []) (on_module_init kafka_consumer 0).0.1)
              1).0.1)
        ≡ false)
is_running-lifecycle_example =
    is_running-lifecycle kafka_consumer 0 1 (crashes true ∷ stops ∷ []) (crashes true ∷ []) begins

-- The world is the time. A process that is connected to MongoDB at the time 1, and a Terminus that runs
-- the indicators as soon as it is asked and answers one step later.
abbrev asks : List (Indicator ℕ) → ℕ → Bool
asks [] w = true
asks (i ∷ is) w = answers (i w).0 && asks is w

abbrev Leads : ℕ → ℕ → Type 0
Leads w v = w ≤ v

decides_at :
    (is : List (Indicator ℕ)) (w : ℕ)
    → ((asks is w ≡ true) × AllAnswer (Between Leads w (w + 1)) is)
      ⊎ ((asks is w ≡ false) × SomeThrows (Between Leads w (w + 1)) is)
decides_at [] w = inl (refl, tt)
decides_at (i ∷ is) w = elim (Bool-cases (answers (i w).0)) [
  | inr threw ↦ rw threw (inr (refl, inl (w, (omega arith, omega arith), threw)))
  | inl answered ↦ rw answered (elim (decides_at is w) [
    | inl (passed, rest) ↦ inl (passed, ((w, (omega arith, omega arith), answered), rest))
    | inr (failed, rest) ↦ inr (failed, inr rest)
  ])
]

abbrev process : Process ℕ
process = record {
  check = λ is w. (asks is w, w + 1);
  uptime_seconds = λ w. w;
  ready_state = λ w. w;
  kafka = record {
    connect = λ w. (ok tt, w);
    fetch_topic_metadata = λ ts w. (ok tt, w);
    disconnect = λ w. (ok tt, w);
  };
  elasticsearch = record { ping = λ w. (ok tt, w); exists_alias = λ alias w. (ok true, w) };
  is_running = λ w. true;
}

process-IsTerminus : IsTerminus Leads process.check
process-IsTerminus = record { decides = decides_at }

abbrev During : Bool × ℕ → ℕ → Type 0
During reply v = Between Leads 1 reply.1 v

readiness-finds_example :
    let api = api_readiness cursors process 1 in
    let publisher = publisher_readiness cursors process 1 in
    let indexer = indexer_readiness cursors process 1 in
    ((api.0 ≡ false)
      ⊎ (((v : ℕ) × During api v × (v ≡ connected_state))
          × ((v : ℕ) × During api v × FindsAlias process.elasticsearch messages_read_alias v)))
    × ((publisher.0 ≡ false)
        ⊎ (((v : ℕ) × During publisher v × (v ≡ connected_state))
            × ((v : ℕ) × During publisher v × FindsTopic process.kafka v)))
    × ((indexer.0 ≡ false)
        ⊎ (((v : ℕ) × During indexer v × FindsTopic process.kafka v)
            × ((v : ℕ) × During indexer v × FindsAlias process.elasticsearch messages_write_alias v)
            × ((v : ℕ) × During indexer v × (true ≡ true))))
    × ((liveness cursors process "api" 1).0 ≡ true)
readiness-finds_example = readiness-finds cursors process "api" 1 Leads process-IsTerminus
