-- ===== src/Health/Indicators.antt =====
-- The health indicators: libs/observability/src/health/runtime-health.indicator.ts,
-- libs/persistence/src/health/mongo-health.indicator.ts,
-- libs/messaging/src/kafka-health.indicator.ts and
-- libs/search/src/elasticsearch-health.indicator.ts. The clients are parameters.
use Prim.Native.String.{◌++◌ as append}
use message_management_api.Prelude.{
  ℕ, String, Bool, true, false, ◌==◌, List, [], ◌∷◌, if◌then◌else◌,
}
use message_management_api.Json.{Items, Fields, str, num, arr, natural, nil, cons, field, end}
use message_management_api.Effects.{
  Io, Result, ok, err, throw, pure, finally, ◌>>=◌, ◌>>◌, plain_error,
}
use message_management_api.Runtime.{Runtime, error_text}
use message_management_api.Domain.{message_created_topic}
use message_management_api.Search.EsMessageSearch.{messages_read_alias, messages_write_alias}

-- `indicator.up(details)` and `indicator.down(details)` of the indicator with a name.
pub record HealthIndicatorResult : Type 0 where
  pub name : String
  pub is_up : Bool
  pub details : Fields

-- What an indicator does: it returns a result, or throws a `HealthCheckError` with one.
pub data Health : Type 0 where
  healthy : HealthIndicatorResult → Health
  unhealthy : String → HealthIndicatorResult → Health

abbrev pub Indicator : Type 0 → Type 0
Indicator W = W → Health × W

abbrev pub up : String → Fields → Health
up name details = healthy (record { name = name; is_up = true; details = details })

abbrev pub down : String → String → Fields → Health
down message name details =
    unhealthy message (record { name = name; is_up = false; details = details })

abbrev texts : List String → Items
texts [] = nil
texts (s ∷ ss) = cons (str s) (texts ss)

-- `ConnectionStates.connected`.
abbrev pub connected_state : ℕ
connected_state = 1

abbrev ready_state_field : ℕ → Fields
ready_state_field state = field "readyState" (num (natural state)) end

module _ {W : Type 0} where
  -- `uptime_seconds` is `Math.round(process.uptime())`.
  unfoldable pub is_live : (W → ℕ) → String → Indicator W
  is_live uptime_seconds runtime w = (
    up "process" (
        field "runtime" (str runtime)
          (field "uptimeSeconds" (num (natural (uptime_seconds w))) end)),
    w,
  )

  unfoldable pub is_ready : String → List String → Indicator W
  is_ready runtime dependencies w = (
    up "runtime"
        (field "dependencies" (arr (texts dependencies)) (field "runtime" (str runtime) end)),
    w,
  )

  -- `ready_state` is the property of the mongoose connection.
  unfoldable pub is_mongo_ready : (W → ℕ) → Indicator W
  is_mongo_ready ready_state w =
      if ready_state w == connected_state
      then (up "mongodb" (ready_state_field (ready_state w)), w)
      else (down "MongoDB is not ready" "mongodb" (ready_state_field (ready_state w)), w)

-- The kafkajs admin client; what `disconnect` throws is caught at the call.
pub record KafkaAdmin (W : Type 0) : Type 0 where
  pub connect : Io W (Unit {0})
  pub fetch_topic_metadata : List String → Io W (Unit {0})
  pub disconnect : Io W (Unit {0})

pub record EsHealthClient (W : Type 0) : Type 0 where
  pub ping : Io W (Unit {0})
  pub exists_alias : String → Io W Bool

abbrev settled : {W : Type 0} → (Result (Unit {0}) → Health) → Io W (Unit {0}) → Indicator W
settled answer m w = (answer (m w).0, (m w).1)

abbrev topics_field : Fields
topics_field = field "topics" (arr (cons (str message_created_topic) nil)) end

abbrev kafka_answer : Runtime → Result (Unit {0}) → Health
kafka_answer r (ok done) = up "kafka" topics_field
kafka_answer r (err error) =
    down "Kafka is not ready" "kafka" (field "error" (str (error_text r error)) topics_field)

abbrev alias_answer : Runtime → String → Result (Unit {0}) → Health
alias_answer r alias (ok done) = up "elasticsearch" (field "alias" (str alias) end)
alias_answer r alias (err error) =
    down "Elasticsearch is not ready" "elasticsearch"
      (field "alias" (str alias) (field "error" (str (error_text r error)) end))

module _ {W : Type 0} (r : Runtime) where
  unfoldable pub is_kafka_ready : KafkaAdmin W → Indicator W
  is_kafka_ready admin = settled (kafka_answer r) (
      finally (do admin.connect; admin.fetch_topic_metadata (message_created_topic ∷ []))
        (λ w. (admin.disconnect w).1))

  -- The block that `checkAlias` guards by its `catch`.
  unfoldable pub probe_alias : EsHealthClient W → String → Io W (Unit {0})
  probe_alias client alias = do
    client.ping
    exists ← client.exists_alias alias
    if exists
        then pure tt
        else throw (plain_error (append "Alias " (append alias " does not exist")))

  unfoldable pub check_alias : EsHealthClient W → String → Indicator W
  unfolding probe_alias
  check_alias client alias = settled (alias_answer r alias) (probe_alias client alias)

  abbrev pub is_read_ready : EsHealthClient W → Indicator W
  is_read_ready client = check_alias client messages_read_alias

  abbrev pub is_write_ready : EsHealthClient W → Indicator W
  is_write_ready client = check_alias client messages_write_alias
