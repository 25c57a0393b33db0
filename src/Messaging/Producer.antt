-- ===== src/Messaging/Producer.antt =====
-- libs/messaging/src/kafka-producer.service.ts.
pub mod Lifecycle
use message_management_api.Prelude.{
  String, Bool, true, false, not, Option, none, some, List, if◌then◌else◌, map,
}
use message_management_api.Json.{Json}
use message_management_api.Effects.{Io, pure, throw, ◌>>◌, plain_error}
use message_management_api.Runtime.{Runtime, Buffer}

abbrev pub TextHeaders : Type 0
TextHeaders = List (String × String)

abbrev pub BufferHeaders : Type 0
BufferHeaders = List (String × Buffer)

-- `Buffer | string | null`.
pub data RecordValue : Type 0 where
  absent : RecordValue
  text : String → RecordValue
  buffer : Buffer → RecordValue

pub record PublishJsonMessageInput : Type 0 where
  pub topic : String
  pub key : String
  pub payload : Json
  pub headers : Option TextHeaders

pub record PublishRawMessageInput : Type 0 where
  pub topic : String
  pub key : Option String
  pub value : RecordValue
  pub headers : Option TextHeaders

-- The argument of `producer.send` with its one message; `acks` is -1 in every call, all replicas.
pub record ProducerRecord : Type 0 where
  pub topic : String
  pub key : Option String
  pub value : RecordValue
  pub headers : Option BufferHeaders

-- A kafkajs producer.
pub record Producer (W : Type 0) : Type 0 where
  pub connect : Io W (Unit {0})
  pub disconnect : Io W (Unit {0})
  pub send : ProducerRecord → Io W (Unit {0})

-- The fields of the service.
pub record KafkaProducerService (W : Type 0) : Type 0 where
  pub producer : Option (Producer W)
  pub connected : Bool

unfoldable pub encode_headers : Runtime → Option TextHeaders → Option BufferHeaders
encode_headers r none = none
encode_headers r (some headers) = some (map (λ h. (h.0, r.utf8_bytes h.1)) headers)

module _ {W : Type 0} where
  -- `kafka.producer(…)` is given; the service is returned as it stands afterwards.
  unfoldable pub on_module_init : Producer W → Io W (KafkaProducerService W)
  on_module_init producer = do
    producer.connect
    pure (record { producer = some producer; connected = true })

  unfoldable pub on_application_shutdown : KafkaProducerService W → Io W (KafkaProducerService W)
  on_application_shutdown service = elim service.producer [
    | none ↦ pure service
    | some producer ↦
        if not service.connected
        then pure service
        else do producer.disconnect; pure (record service { connected = false })
  ]

  abbrev pub is_ready : KafkaProducerService W → Bool
  is_ready service = service.connected

  module _ (r : Runtime) (service : KafkaProducerService W) where
    unfoldable pub publish_raw : PublishRawMessageInput → Io W (Unit {0})
    unfolding encode_headers
    publish_raw input = elim service.producer [
      | none ↦ throw (plain_error "Kafka producer is not connected")
      | some producer ↦
          if not service.connected
          then throw (plain_error "Kafka producer is not connected")
          else producer.send (record {
            topic = input.topic;
            key = input.key;
            value = input.value;
            headers = encode_headers r input.headers;
          })
    ]

    unfoldable pub publish_json : PublishJsonMessageInput → Io W (Unit {0})
    unfolding publish_raw
    publish_json input = publish_raw (record {
      topic = input.topic;
      key = some input.key;
      value = text (r.json_text input.payload);
      headers = input.headers;
    })
