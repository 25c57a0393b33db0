-- ===== src/Indexer/Headers.antt =====
-- The headers of a dead letter, `buildDlqHeaders` and `decodeHeaders` of
-- apps/search-indexer/src/message-created.consumer.ts.
pub mod Values
use message_management_api.Prelude.{
  ℕ, String, Option, none, some, List, [], ◌∷◌, str_eq, if◌then◌else◌, or_else,
}
use message_management_api.Effects.{Exception, error_name?}
use message_management_api.Runtime.{Runtime, Buffer, error_text}
use message_management_api.Messaging.Producer.{TextHeaders}
use message_management_api.Indexer.Parse.{ParsedEvent, message_created}

pub data HeaderPart : Type 0 where
  bytes : Buffer → HeaderPart
  text : String → HeaderPart

pub data HeaderValue : Type 0 where
  undefined : HeaderValue
  part : HeaderPart → HeaderValue
  parts : List HeaderPart → HeaderValue

-- kafkajs's `EachMessagePayload`, as far as the consumer reads it.
pub record EachMessagePayload : Type 0 where
  pub topic : String
  pub partition : ℕ
  pub offset : String
  pub key : Option Buffer
  pub value : Option Buffer
  pub headers : Option (List (String × HeaderValue))

abbrev decode_part : Runtime → HeaderPart → String
decode_part r (bytes b) = r.utf8_text b
decode_part r (text s) = s

unfoldable pub decode_header_value : Runtime → HeaderValue → Option String
decode_header_value r undefined = none
decode_header_value r (part p) = some (decode_part r p)
decode_header_value r (parts []) = none
decode_header_value r (parts (p ∷ ps)) = some (decode_part r p)

-- Writing a property of an object: an old one keeps its place.
unfoldable pub with_header : String → String → TextHeaders → TextHeaders
with_header key value [] = (key, value) ∷ []
with_header key value ((k, v) ∷ hs) =
    if str_eq k key then (key, value) ∷ hs else (k, v) ∷ with_header key value hs

unfoldable pub get_header : String → TextHeaders → Option String
get_header key [] = none
get_header key ((k, v) ∷ hs) = if str_eq k key then some v else get_header key hs

unfoldable pub decode_entries : Runtime → List (String × HeaderValue) → TextHeaders
unfolding decode_header_value
decode_entries r [] = []
decode_entries r ((key, value) ∷ hs) = elim (decode_header_value r value) [
  | none ↦ decode_entries r hs
  | some decoded ↦ (key, decoded) ∷ decode_entries r hs
]

unfoldable pub decode_headers : Runtime → Option (List (String × HeaderValue)) → TextHeaders
unfolding decode_entries
decode_headers r none = []
decode_headers r (some headers) = decode_entries r headers

unfoldable pub build_dlq_headers :
    Runtime → ℕ → EachMessagePayload → Exception → Option ParsedEvent → TextHeaders
unfolding with_header decode_headers
build_dlq_headers r now payload error parsed =
    let headers = with_header "x-original-topic" payload.topic (
      with_header "x-original-partition" (r.decimal payload.partition) (
        with_header "x-original-offset" payload.offset (
          with_header "x-failed-at" (r.iso_text now) (
            with_header "x-error-message" (error_text r error) (
              with_header "x-error-class" (or_else (error_name? error) "Error")
                (decode_headers r payload.headers)))))) in
    elim parsed [
      | some (message_created event) ↦ with_header "x-correlation-id" event.correlation_id headers
      | _ ↦ headers
    ]

unfoldable pub decode_key : Runtime → Option Buffer → Option String
decode_key r none = none
decode_key r (some key) = some (r.utf8_text key)
