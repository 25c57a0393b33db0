-- ===== src/Messaging/Producer/Lifecycle.antt =====
-- The producer service of libs/messaging/src/kafka-producer.service.ts from its start to its end.
use message_management_api.Prelude.{◌≡◌, refl, true, false, some, inl, inr, sym}
use message_management_api.Effects.{ok, err, Exception, Result-cases, plain_error, ok_injective}
use message_management_api.Runtime.{Runtime}
use message_management_api.Messaging.Producer.{
  Producer, KafkaProducerService, ProducerRecord, PublishJsonMessageInput, text, encode_headers,
  on_module_init, on_application_shutdown, is_ready, publish_raw, publish_json,
}

abbrev started : {W : Type 0} → Producer W → KafkaProducerService W
started producer = record { producer = some producer; connected = true }

abbrev stopped : {W : Type 0} → Producer W → KafkaProducerService W
stopped producer = record { producer = some producer; connected = false }

-- The one message that a call of `publishJson` sends.
abbrev pub json_record : Runtime → PublishJsonMessageInput → ProducerRecord
json_record r input = record {
  topic = input.topic;
  key = some input.key;
  value = text (r.json_text input.payload);
  headers = encode_headers r input.headers;
}

abbrev pub not_connected : Exception
not_connected = plain_error "Kafka producer is not connected"

started_lem :
    {W : Type 0} (producer : Producer W) (w : W) (service : KafkaProducerService W)
    → (on_module_init producer w).0 ≡ ok service
    → service ≡ started producer
unfolding on_module_init
started_lem producer w service h = elim (Result-cases (producer.connect w).0) [
  | inl (done, e) ↦ sym (ok_injective (rw (e) at h))
  | inr (x, thrown) ↦ cc (rw (thrown) at h)
]

stopped_lem :
    {W : Type 0} (producer : Producer W) (v : W) (service : KafkaProducerService W)
    → (on_application_shutdown (started producer) v).0 ≡ ok service
    → service ≡ stopped producer
unfolding on_application_shutdown
stopped_lem producer v service h = elim (Result-cases (producer.disconnect v).0) [
  | inl (done, e) ↦ sym (ok_injective (rw (e) at h))
  | inr (x, thrown) ↦ cc (rw (thrown) at h)
]

-- A service that started is ready, and each of its calls sends exactly its one message; once it was
-- shut down it is not ready, every call throws and sends nothing, and a second shutdown does not
-- disconnect again.
pub publish_json-lifecycle :
    {W : Type 0} (r : Runtime) (producer : Producer W) (w v u : W)
    (service service' : KafkaProducerService W) (input : PublishJsonMessageInput)
    → (on_module_init producer w).0 ≡ ok service
    → (on_application_shutdown service v).0 ≡ ok service'
    → (is_ready service ≡ true)
      × (publish_json r service input u ≡ producer.send (json_record r input) u)
      × (is_ready service' ≡ false)
      × (publish_json r service' input u ≡ (err not_connected, u))
      × (on_application_shutdown service' u ≡ (ok service', u))
unfolding publish_json publish_raw on_application_shutdown
publish_json-lifecycle r producer w v u service service' input init shutdown =
    let a = started_lem producer w service init in
    let b = stopped_lem producer v service' (rw a at shutdown) in
    rw (a, b) (refl, refl, refl, refl, refl)
