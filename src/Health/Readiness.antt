-- ===== src/Health/Readiness.antt =====
-- What a readiness reply says of the connections of a process.
use message_management_api.Prelude.{
  ℕ, String, ◌≡◌, Bool, true, false, List, [], ◌∷◌, inl, inr, arith, ◌⊎◌,
}
use message_management_api.Effects.{ok, Result-cases}
use message_management_api.Runtime.{Runtime}
use message_management_api.Domain.{message_created_topic}
use message_management_api.Search.EsMessageSearch.{messages_read_alias, messages_write_alias}
use message_management_api.Health.Indicators.{
  Health, healthy, unhealthy, Indicator, KafkaAdmin, EsHealthClient, is_live, is_mongo_ready,
  is_kafka_ready, check_alias, connected_state,
}
use message_management_api.Health.Controllers.{
  Process, liveness_indicators, api_indicators, publisher_indicators, indexer_indicators, liveness,
  api_readiness, publisher_readiness, indexer_readiness, consumer_runner_ready,
}

abbrev pub answers : Health → Bool
answers (healthy result) = true
answers (unhealthy message result) = false

-- Each indicator in a state of its own, out of those in which it may run.
abbrev pub AllAnswer : {W : Type 0} → (W → Type 0) → List (Indicator W) → Type 0
AllAnswer {W} Runs [] = Unit
AllAnswer {W} Runs (i ∷ is) = ((v : W) × Runs v × (answers (i v).0 ≡ true)) × AllAnswer Runs is

abbrev pub SomeThrows : {W : Type 0} → (W → Type 0) → List (Indicator W) → Type 0
SomeThrows {W} Runs [] = ⊥
SomeThrows {W} Runs (i ∷ is) = ((v : W) × Runs v × (answers (i v).0 ≡ false)) ⊎ SomeThrows Runs is

-- A state that the world is in while it goes from one to another.
abbrev pub Between : {W : Type 0} → (W → W → Type 0) → W → W → W → Type 0
Between Leads w w' v = Leads w v × Leads v w'

-- What Terminus documents of `check`: it runs every indicator, and the status is `ok` if none throws, and
-- else it is not. `Leads` says which states follow which.
pub record IsTerminus {W : Type 0} (Leads : W → W → Type 0)
    (check : List (Indicator W) → W → Bool × W) : Type 0 where
  pub decides :
      (is : List (Indicator W)) (w : W)
      → (((check is w).0 ≡ true) × AllAnswer (Between Leads w (check is w).1) is)
        ⊎ (((check is w).0 ≡ false) × SomeThrows (Between Leads w (check is w).1) is)

-- Whether an alias was found, and whether Kafka told of the topic of the events, from a state on.
abbrev pub FindsAlias : {W : Type 0} → EsHealthClient W → String → W → Type 0
FindsAlias client alias w =
    ((client.ping w).0 ≡ ok tt) × ((client.exists_alias alias (client.ping w).1).0 ≡ ok true)

abbrev pub FindsTopic : {W : Type 0} → KafkaAdmin W → W → Type 0
FindsTopic admin w =
    ((admin.connect w).0 ≡ ok tt)
    × ((admin.fetch_topic_metadata (message_created_topic ∷ []) (admin.connect w).1).0 ≡ ok tt)

is_mongo_ready-connected :
    {W : Type 0} (ready_state : W → ℕ) (w : W)
    → answers (is_mongo_ready ready_state w).0 ≡ true
    → ready_state w ≡ connected_state
unfolding is_mongo_ready
is_mongo_ready-connected ready_state w h = ground arith

check_alias-finds :
    {W : Type 0} (r : Runtime) (client : EsHealthClient W) (alias : String) (w : W)
    → answers (check_alias r client alias w).0 ≡ true
    → FindsAlias client alias w
unfolding check_alias
check_alias-finds r client alias w h = elim (Result-cases (client.ping w).0) [
  | inr (e, thrown) ↦ cc (rw thrown at h)
  | inl (pinged, e) ↦ elim (Result-cases (client.exists_alias alias (client.ping w).1).0) [
    | inr (x, thrown) ↦ cc (rw (e, thrown) at h)
    | inl (true, found) ↦ (e, found)
    | inl (false, found) ↦ cc (rw (e, found) at h)
  ]
]

is_kafka_ready-finds :
    {W : Type 0} (r : Runtime) (admin : KafkaAdmin W) (w : W)
    → answers (is_kafka_ready r admin w).0 ≡ true
    → FindsTopic admin w
unfolding is_kafka_ready
is_kafka_ready-finds r admin w h = elim (Result-cases (admin.connect w).0) [
  | inr (e, thrown) ↦ cc (rw thrown at h)
  | inl (done, e) ↦
      elim (Result-cases
        (admin.fetch_topic_metadata (message_created_topic ∷ []) (admin.connect w).1).0) [
          | inr (x, thrown) ↦ cc (rw (e, thrown) at h)
          | inl (told, found) ↦ (e, found)
        ]
]

consumer_runner_ready-runs :
    {W : Type 0} (r : Runtime) (p : Process W) (w : W)
    → answers (consumer_runner_ready r p w).0 ≡ true
    → p.is_running w ≡ true
unfolding consumer_runner_ready
consumer_runner_ready-runs r p w h = ground arith

-- A readiness reply is `ok` only if its checks found, each in a state between the request and the reply,
-- what the process needs: for the API a connection to MongoDB and the read alias, for the publisher a connection to MongoDB and
-- Kafka's topic of the events, for the indexer the topic, the write alias and a running consumer. The
-- liveness reply is always `ok`. Terminus answers `ok` exactly if no indicator throws.
pub readiness-finds :
    {W : Type 0} (r : Runtime) (p : Process W) (runtime : String) (w : W) (Leads : W → W → Type 0)
    → IsTerminus Leads p.check
    → let api = api_readiness r p w in
      let publisher = publisher_readiness r p w in
      let indexer = indexer_readiness r p w in
      ((api.0 ≡ false)
        ⊎ (((v : W) × Between Leads w api.1 v × (p.ready_state v ≡ connected_state))
            × ((v : W) × Between Leads w api.1 v
                × FindsAlias p.elasticsearch messages_read_alias v)))
      × ((publisher.0 ≡ false)
          ⊎ (((v : W) × Between Leads w publisher.1 v × (p.ready_state v ≡ connected_state))
              × ((v : W) × Between Leads w publisher.1 v × FindsTopic p.kafka v)))
      × ((indexer.0 ≡ false)
          ⊎ (((v : W) × Between Leads w indexer.1 v × FindsTopic p.kafka v)
              × ((v : W) × Between Leads w indexer.1 v
                  × FindsAlias p.elasticsearch messages_write_alias v)
              × ((v : W) × Between Leads w indexer.1 v × (p.is_running v ≡ true))))
      × ((liveness r p runtime w).0 ≡ true)
unfolding api_readiness publisher_readiness indexer_readiness liveness is_live
readiness-finds r p runtime w Leads laws = (
  elim (laws.decides (api_indicators r p) w) [
    | inr (failed, some_threw) ↦ inl failed
    | inl (passed, all) ↦
        let mongo = all.1.0 in
        let alias = all.1.1.0 in
        inr (
          (mongo.0, mongo.1, is_mongo_ready-connected p.ready_state mongo.0 mongo.2),
          (
            alias.0,
            alias.1,
            check_alias-finds r p.elasticsearch messages_read_alias alias.0 alias.2,
          ),
        )
  ],
  elim (laws.decides (publisher_indicators r p) w) [
    | inr (failed, some_threw) ↦ inl failed
    | inl (passed, all) ↦
        let mongo = all.1.0 in
        let kafka = all.1.1.0 in
        inr (
          (mongo.0, mongo.1, is_mongo_ready-connected p.ready_state mongo.0 mongo.2),
          (kafka.0, kafka.1, is_kafka_ready-finds r p.kafka kafka.0 kafka.2),
        )
  ],
  elim (laws.decides (indexer_indicators r p) w) [
    | inr (failed, some_threw) ↦ inl failed
    | inl (passed, all) ↦
        let kafka = all.1.0 in
        let alias = all.1.1.0 in
        let consumer = all.1.1.1.0 in
        inr (
          (kafka.0, kafka.1, is_kafka_ready-finds r p.kafka kafka.0 kafka.2),
          (
            alias.0,
            alias.1,
            check_alias-finds r p.elasticsearch messages_write_alias alias.0 alias.2,
          ),
          (consumer.0, consumer.1, consumer_runner_ready-runs r p consumer.0 consumer.2),
        )
  ],
  elim (laws.decides (liveness_indicators r p runtime) w) [
    | inr (failed, inl (v, runs, threw)) ↦ cc
    | inr (failed, inr none) ↦ elim none [ ]
    | inl (passed, live) ↦ passed
  ],
)
