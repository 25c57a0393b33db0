-- ===== src/Config/Schema.antt =====
-- libs/config/src/env/runtime-validation.schema.ts: the schema of the environment of each process, as
-- the rules that its calls of Joi state.
use Prim.Native.Char.{code}
use Prim.Native.String.{◌++◌ as append}
use message_management_api.Prelude.{
  ℕ, String, Bool, Option, none, some, List, [], ◌∷◌, ◌++◌, all, any, characters, ◌==◌,
  if◌then◌else◌,
}
use message_management_api.Cli.Options.{csv_entries}

-- `Joi.string().valid(…)`, `.pattern(API_KEYS_PATTERN)`, `.uri({ scheme })`, `.trim().min(1)` and
-- `.custom(…)`; `Joi.number().port()`, and `Joi.number().integer().min(…)` with or without `.max(…)`.
pub data Rule : Type 0 where
  valid : List String → Rule
  api_keys_pattern : Rule
  uri : List String → Rule
  non_blank : Rule
  custom : (String → Option String) → Rule
  port : Rule
  integer : ℕ → Option ℕ → Rule

-- `.required()`, `.optional()` or `.default(…)`.
pub data Presence : Type 0 where
  required : Presence
  optional : Presence
  default_text : String → Presence
  default_number : ℕ → Presence

pub record Entry : Type 0 where
  pub name : String
  pub rule : Rule
  pub presence : Presence

pub data Process : Type 0 where
  api outbox_publisher search_indexer cli : Process

abbrev entry : String → Rule → Presence → Entry
entry name rule presence = record { name = name; rule = rule; presence = presence }

abbrev pub base_schema : List Entry
base_schema =
    entry "NODE_ENV" (valid ("development" ∷ "test" ∷ "production" ∷ []))
      (default_text "development")
    ∷ entry "LOG_LEVEL"
        (valid ("fatal" ∷ "error" ∷ "warn" ∷ "info" ∷ "debug" ∷ "trace" ∷ "silent" ∷ []))
        (default_text "info")
    ∷ []

abbrev pub mongodb_uri_entry : Presence → Entry
mongodb_uri_entry = entry "MONGODB_URI" (uri ("mongodb" ∷ "mongodb+srv" ∷ []))

abbrev elasticsearch_node_entry : Presence → Entry
elasticsearch_node_entry = entry "ELASTICSEARCH_NODE" (uri ("http" ∷ "https" ∷ []))

abbrev pub api_schema : List Entry
api_schema =
    entry "PORT" port (default_number 3000)
    ∷ entry "API_KEYS" api_keys_pattern required
    ∷ mongodb_uri_entry required
    ∷ elasticsearch_node_entry required
    ∷ []

abbrev pub mongo_schema : List Entry
mongo_schema = mongodb_uri_entry required ∷ []

-- `broker.includes(':')`.
abbrev pub has_colon : String → Bool
has_colon s = any (λ c. code c == b':') (characters s)

abbrev join : List String → String
join [] = ""
join (s ∷ []) = s
join (s ∷ t ∷ ss) = append s (append "," (join (t ∷ ss)))

-- The function that is given to `custom`; none is its `helpers.error`.
unfoldable pub valid_brokers : String → Option String
valid_brokers value = elim (csv_entries value) [
  | [] ↦ none
  | broker ∷ brokers ↦
      if all has_colon (broker ∷ brokers) then some (join (broker ∷ brokers)) else none
]

abbrev pub kafka_brokers_entry : Presence → Entry
kafka_brokers_entry = entry "KAFKA_BROKERS" (custom valid_brokers)

abbrev kafka_client_id_entry : Entry
kafka_client_id_entry = entry "KAFKA_CLIENT_ID" non_blank (default_text "message-management-api")

abbrev pub kafka_schema : List Entry
kafka_schema = kafka_brokers_entry required ∷ kafka_client_id_entry ∷ []

abbrev pub elasticsearch_schema : List Entry
elasticsearch_schema = elasticsearch_node_entry required ∷ []

abbrev pub outbox_tuning_schema : List Entry
outbox_tuning_schema =
    entry "OUTBOX_POLL_INTERVAL_MS" (integer 100 none) (default_number 500)
    ∷ entry "OUTBOX_BATCH_SIZE" (integer 1 (some 500)) (default_number 50)
    ∷ entry "OUTBOX_MAX_ATTEMPTS" (integer 1 (some 100)) (default_number 10)
    ∷ entry "OUTBOX_LOCK_TIMEOUT_MS" (integer 1000 none) (default_number 30_000)
    ∷ entry "OUTBOX_HEALTH_PORT" port (default_number 3001)
    ∷ []

abbrev pub indexer_schema : List Entry
indexer_schema = entry "INDEXER_HEALTH_PORT" port (default_number 3002) ∷ []

abbrev pub cli_schema : List Entry
cli_schema =
    base_schema
    ++ (mongodb_uri_entry optional
        ∷ kafka_brokers_entry optional
        ∷ kafka_client_id_entry
        ∷ elasticsearch_node_entry optional
        ∷ (outbox_tuning_schema ++ indexer_schema))

abbrev pub create_runtime_validation_schema : Process → List Entry
create_runtime_validation_schema api = base_schema ++ api_schema
create_runtime_validation_schema outbox_publisher =
    base_schema ++ (mongo_schema ++ (kafka_schema ++ outbox_tuning_schema))
create_runtime_validation_schema search_indexer =
    base_schema ++ (kafka_schema ++ (elasticsearch_schema ++ indexer_schema))
create_runtime_validation_schema cli = cli_schema
