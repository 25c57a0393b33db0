-- ===== src/Tests/ConfigExamples.antt =====
-- The theorem on the settings of the publisher at a concrete environment.
use message_management_api.Prelude.{
  ℕ, String, Bool, true, false, not, ◌&&◌, Option, none, some, List, [], ◌∷◌, leb, is_some, str_eq,
  if◌then◌else◌,
}
use message_management_api.Config.{Environment, RuntimeConfig, build_runtime_config}
use message_management_api.Config.Schema.{Rule, custom, integer, Presence, required, Entry}

-- An environment with the two entries that the publisher requires and a third.
abbrev environment : Environment
environment name =
    if str_eq name "MONGODB_URI"
    then some "mongodb://db"
    else if str_eq name "KAFKA_BROKERS"
    then some "a:1, b:2"
    else if str_eq name "OUTBOX_BATCH_SIZE"
    then some "5"
    else none

abbrev five : String → ℕ
five s = 5

abbrev within : Option ℕ → Bool
within none = true
within (some maximum) = leb 5 maximum

abbrev tests : Rule → String → Bool
tests (integer minimum maximum) value = leb minimum 5 && within maximum
tests (custom f) value = is_some (f value)
tests _ value = true

abbrev is_required : Presence → Bool
is_required required = true
is_required _ = false

abbrev tests_entry : Entry → Option String → Bool
tests_entry entry none = not (is_required entry.presence)
tests_entry entry (some value) = tests entry.rule value

abbrev validate : List Entry → Environment → Bool
validate [] env = true
validate (entry ∷ entries) env = tests_entry entry (env entry.name) && validate entries env

abbrev config : RuntimeConfig
config = build_runtime_config five environment "outbox-publisher"
