-- ===== src/Health/Controllers.antt =====
-- The health controllers of the three processes, apps/api/src/health/health.controller.ts,
-- apps/outbox-publisher/src/health/health.controller.ts and
-- apps/search-indexer/src/health/health.controller.ts. Terminus, which runs the indicators and makes
-- the reply, is a parameter.
use message_management_api.Prelude.{ℕ, String, Bool, List, [], ◌∷◌, if◌then◌else◌}
use message_management_api.Json.{str, field, end}
use message_management_api.Runtime.{Runtime}
use message_management_api.Messaging.Topics.{message_created_search_indexer_group}
use message_management_api.Health.Indicators.{
  Indicator, up, down, KafkaAdmin, EsHealthClient, is_live, is_ready, is_mongo_ready,
  is_kafka_ready, is_read_ready, is_write_ready,
}

-- What a process holds: the connections of its modules, the flag of the consumer, and Terminus's
-- `HealthCheckService.check`, which answers whether the status is `ok`.
pub record Process (W : Type 0) : Type 0 where
  pub check : List (Indicator W) → W → Bool × W
  pub uptime_seconds : W → ℕ
  pub ready_state : W → ℕ
  pub kafka : KafkaAdmin W
  pub elasticsearch : EsHealthClient W
  pub is_running : W → Bool

module _ {W : Type 0} (r : Runtime) (p : Process W) where
  -- `liveness`, with the name of the runtime.
  abbrev pub liveness_indicators : String → List (Indicator W)
  liveness_indicators runtime = is_live p.uptime_seconds runtime ∷ []

  unfoldable pub liveness : String → W → Bool × W
  liveness runtime = p.check (liveness_indicators runtime)

  abbrev pub api_indicators : List (Indicator W)
  api_indicators =
      is_ready "api" ("mongodb" ∷ "elasticsearch" ∷ [])
      ∷ is_mongo_ready p.ready_state
      ∷ is_read_ready r p.elasticsearch
      ∷ []

  unfoldable pub api_readiness : W → Bool × W
  api_readiness = p.check api_indicators

  abbrev pub publisher_indicators : List (Indicator W)
  publisher_indicators =
      is_ready "outbox-publisher" ("mongodb" ∷ "kafka" ∷ [])
      ∷ is_mongo_ready p.ready_state
      ∷ is_kafka_ready r p.kafka
      ∷ []

  unfoldable pub publisher_readiness : W → Bool × W
  publisher_readiness = p.check publisher_indicators

  unfoldable pub consumer_runner_ready : Indicator W
  consumer_runner_ready w =
      let group = field "group" (str message_created_search_indexer_group) end in
      if p.is_running w
      then (up "consumer" group, w)
      else (down "Search indexer consumer is not running" "consumer" group, w)

  abbrev pub indexer_indicators : List (Indicator W)
  indexer_indicators =
      is_ready "search-indexer" ("kafka" ∷ "elasticsearch" ∷ [])
      ∷ is_kafka_ready r p.kafka
      ∷ is_write_ready r p.elasticsearch
      ∷ consumer_runner_ready
      ∷ []

  unfoldable pub indexer_readiness : W → Bool × W
  indexer_readiness = p.check indexer_indicators
