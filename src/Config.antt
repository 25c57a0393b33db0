-- ===== src/Config.antt =====
-- libs/config/src/message-management-config.module.ts: the settings that are read from the
-- environment.
pub mod Schema
pub mod Settings
use message_management_api.Prelude.{
  ℕ, String, Option, none, some, List, [], ◌∷◌, map, split_text, is_empty, or_else, if◌then◌else◌,
}
use message_management_api.Cli.Options.{csv_entries}
use message_management_api.Api.Auth.{ApiKeyConfig}

-- `process.env[name]`.
abbrev pub Environment : Type 0
Environment = String → Option String

abbrev entry_of : List String → ApiKeyConfig
entry_of [] = record { name = ""; hash = "" }
entry_of (name ∷ []) = record { name = name; hash = "" }
entry_of (name ∷ hash ∷ rest) = record { name = name; hash = hash }

unfoldable pub parse_api_keys : Option String → List ApiKeyConfig
parse_api_keys none = []
parse_api_keys (some value) =
    if is_empty value then [] else map (λ e. entry_of (split_text b':' e)) (split_text b',' value)

abbrev non_empty : List String → Option (List String)
non_empty [] = none
non_empty (entry ∷ entries) = some (entry ∷ entries)

unfoldable pub parse_csv : Option String → Option (List String)
parse_csv none = none
parse_csv (some value) = non_empty (csv_entries value)

-- `number_of` is `Number(text)`; validation has run before, so the text is a natural number.
unfoldable pub number_from_env : (String → ℕ) → Environment → String → ℕ → ℕ
number_from_env number_of env name default = elim (env name) [
  | none ↦ default
  | some value ↦ number_of value
]

pub record OutboxSettings : Type 0 where
  pub batch_size : ℕ
  pub health_port : ℕ
  pub lock_timeout_ms : ℕ
  pub max_attempts : ℕ
  pub poll_interval_ms : ℕ

pub record RuntimeConfig : Type 0 where
  pub api_keys : List ApiKeyConfig
  pub log_level : String
  pub node_env : String
  pub port : ℕ
  pub runtime : String
  pub elasticsearch_node : Option String
  pub kafka_brokers : Option (List String)
  pub kafka_client_id : String
  pub mongodb_uri : Option String
  pub outbox : OutboxSettings
  pub indexer_health_port : ℕ

unfoldable pub build_runtime_config : (String → ℕ) → Environment → String → RuntimeConfig
unfolding parse_api_keys parse_csv number_from_env
build_runtime_config number_of env runtime = record {
  api_keys = parse_api_keys (env "API_KEYS");
  log_level = or_else (env "LOG_LEVEL") "info";
  node_env = or_else (env "NODE_ENV") "development";
  port = number_from_env number_of env "PORT" 3000;
  runtime = runtime;
  elasticsearch_node = env "ELASTICSEARCH_NODE";
  kafka_brokers = parse_csv (env "KAFKA_BROKERS");
  kafka_client_id = or_else (env "KAFKA_CLIENT_ID") "message-management-api";
  mongodb_uri = env "MONGODB_URI";
  outbox = record {
    batch_size = number_from_env number_of env "OUTBOX_BATCH_SIZE" 50;
    health_port = number_from_env number_of env "OUTBOX_HEALTH_PORT" 3001;
    lock_timeout_ms = number_from_env number_of env "OUTBOX_LOCK_TIMEOUT_MS" 30000;
    max_attempts = number_from_env number_of env "OUTBOX_MAX_ATTEMPTS" 10;
    poll_interval_ms = number_from_env number_of env "OUTBOX_POLL_INTERVAL_MS" 500;
  };
  indexer_health_port = number_from_env number_of env "INDEXER_HEALTH_PORT" 3002;
}
