-- ===== src/Indexer/DeadLetters.antt =====
-- A message that the consumer gives up and that a redrive sends again: the way from the consumer of
-- apps/search-indexer/src/message-created.consumer.ts through the dead-letter topic and
-- apps/cli/src/services/dlq-redrive.service.ts back to the consumer. Kafka is a parameter.
use message_management_api.Prelude.{
  ℕ, String, ◌≡◌, refl, ap, ◌∙◌, inl, inr, true, Option, none, some, List, ◌∷◌,
}
use message_management_api.Effects.{Result, ok, err, Exception, Result-cases, ◌>>=◌, ◌>>◌, act}
use message_management_api.Runtime.{Runtime, Buffer}
use message_management_api.Domain.{SearchMessageDocument, message_created_topic}
use message_management_api.Persistence.Collection.{Does}
use message_management_api.Messaging.Producer.{
  Producer, KafkaProducerService, ProducerRecord, RecordValue, absent, text, buffer, publish_raw,
  encode_headers,
}
use message_management_api.Messaging.Topics.{message_created_dlq_topic}
use message_management_api.Cli.DlqRedrive.{DeadLetter, Republished, republish_dlq_message}
use message_management_api.Indexer.{Consumer, publish_to_dlq, raw_value, error_reason}
use message_management_api.Indexer.Parse.{ParsedEvent}
use message_management_api.Indexer.Headers.{EachMessagePayload, build_dlq_headers, decode_key}

-- Kafka and kafkajs: what was sent so far, the last first, and how a message that was sent to a
-- topic is delivered to a consumer of the dead letters, and to one of the events.
pub record Broker (W : Type 0) : Type 0 where
  pub producer : Producer W
  pub sent : W → List ProducerRecord
  pub deliver_dead_letter : ProducerRecord → DeadLetter
  pub deliver : Republished → EachMessagePayload

-- A text is sent as its UTF-8 bytes; keys and values are delivered as they were sent.
abbrev pub key_bytes : Runtime → Option String → Option Buffer
key_bytes r none = none
key_bytes r (some s) = some (r.utf8_bytes s)

-- A key that went through a text: bytes that are no UTF-8 are not kept.
abbrev pub rewritten : Runtime → Option Buffer → Option Buffer
rewritten r none = none
rewritten r (some b) = some (r.utf8_bytes (r.utf8_text b))

abbrev pub value_bytes : Runtime → RecordValue → Option Buffer
value_bytes r absent = none
value_bytes r (text s) = some (r.utf8_bytes s)
value_bytes r (buffer b) = some b

pub record IsBroker {W : Type 0} (r : Runtime) (broker : Broker W) : Type 0 where
  pub send :
      (m : ProducerRecord) (w : W)
      → Does broker.sent (broker.producer.send m) w tt (m ∷ broker.sent w)
  pub letter_key : (m : ProducerRecord) → (broker.deliver_dead_letter m).key ≡ key_bytes r m.key
  pub letter_value :
      (m : ProducerRecord) → (broker.deliver_dead_letter m).value ≡ value_bytes r m.value
  pub key : (m : Republished) → (broker.deliver m).key ≡ m.key
  pub value : (m : Republished) → (broker.deliver m).value ≡ m.value

-- The search, the waiting, the clock, the metrics and the log of the consumer send nothing.
pub record SendsNothing {W : Type 0} (c : Consumer W) (sent : W → List ProducerRecord)
    : Type 0 where
  pub new_date : (w : W) → sent (c.new_date w).1 ≡ sent w
  pub metric :
      (topic reason : String) (w : W) → sent (c.record_search_indexer_dlq topic reason w) ≡ sent w
  pub log :
      (p : EachMessagePayload) (reason : String) (w : W) → sent (c.log_dlq p reason w) ≡ sent w
  pub index_message :
      (d : SearchMessageDocument) (w : W) → sent (c.message_search.index_message d w).1 ≡ sent w
  pub random : (w : W) → sent (c.random w).1 ≡ sent w
  pub delay : (ms : ℕ) (w : W) → sent (c.delay ms w).1 ≡ sent w
  pub indexed : (t : String) (w : W) → sent (c.record_search_indexer_indexed t w) ≡ sent w
  pub duration : (t : String) (w : W) → sent (c.record_search_indexer_index_duration t w) ≡ sent w
  pub skipped :
      (t reason : String) (w : W) → sent (c.record_search_indexer_skipped t reason w) ≡ sent w
  pub unknown : (p : EachMessagePayload) (w : W) → sent (c.log_unknown_version p w) ≡ sent w

-- The consumer with a producer service that is connected.
abbrev pub connected : {W : Type 0} → Producer W → KafkaProducerService W
connected producer = record { producer = some producer; connected = true }

abbrev pub over : {W : Type 0} → Runtime → Producer W → Consumer W → Consumer W
over r producer c = record c { publish_raw = publish_raw r (connected producer) }

-- What becomes of a dead letter that is redriven.
abbrev pub redelivered : {W : Type 0} → Broker W → ProducerRecord → EachMessagePayload
redelivered broker m = broker.deliver (republish_dlq_message (broker.deliver_dead_letter m))

-- The message that the producer is given for a dead letter.
abbrev pub letter :
    {W : Type 0}
    → Runtime
    → Consumer W
    → ℕ
    → EachMessagePayload
    → Exception
    → Option ParsedEvent
    → ProducerRecord
letter r c now payload error parsed = record {
  topic = message_created_dlq_topic;
  key = decode_key r payload.key;
  value = raw_value r c payload.value;
  headers = encode_headers r (some (build_dlq_headers r now payload error parsed));
}

abbrev pub time_of : Result ℕ → ℕ
time_of (ok now) = now
time_of (err e) = 0

module _ {W : Type 0} (r : Runtime) (broker : Broker W) (laws : IsBroker r broker) (c : Consumer W)
    (silent : SendsNothing c broker.sent) where
  pub value_bytes-raw_value : (value : Option Buffer) → value_bytes r (raw_value r c value) ≡ value
  value_bytes-raw_value none = refl
  value_bytes-raw_value (some b) = refl

  key_bytes-decode_key : (key : Option Buffer) → key_bytes r (decode_key r key) ≡ rewritten r key
  unfolding decode_key
  key_bytes-decode_key none = refl
  key_bytes-decode_key (some b) = refl

  pub publish_to_dlq-Does :
      (payload : EachMessagePayload) (error : Exception) (parsed : Option ParsedEvent) (w : W)
      → Does broker.sent
          (publish_to_dlq r (over r broker.producer c) payload error parsed)
          w
          tt
          (letter r c (time_of (c.new_date w).0) payload error parsed ∷ broker.sent w)
  unfolding publish_to_dlq publish_raw
  publish_to_dlq-Does payload error parsed w = elim (Result-cases (c.new_date w).0) [
    | inr (e, thrown) ↦ rw thrown (inr (e, refl, inr (silent.new_date w)))
    | inl (now, answered) ↦ rw answered (sending now)
  ]
    where
      reason : String
      reason = error_reason error

      sending :
          (now : ℕ)
          → let m = letter r c now payload error parsed in
            Does broker.sent
              (λ v.
                (broker.producer.send m >>= λ done.
                act (c.record_search_indexer_dlq payload.topic reason)
                >> act (c.log_dlq payload reason))
                  (c.new_date v).1)
              w
              tt
              (m ∷ broker.sent w)
      sending now =
          let m = letter r c now payload error parsed in
          let w₁ = (c.new_date w).1 in
          let w₂ = (broker.producer.send m w₁).1 in
          let w₃ = c.record_search_indexer_dlq payload.topic reason w₂ in
          let unsent = silent.new_date w in
          elim (laws.send m w₁) [
            | inl (answered, done) ↦ rw answered (
                inl (
                  refl,
                  silent.log payload reason w₃
                      ∙ silent.metric payload.topic reason w₂
                      ∙ done
                      ∙ ap (◌∷◌ m) unsent,
                ))
            | inr (e, thrown, inl done) ↦ rw thrown (inr (e, refl, inl (done ∙ ap (◌∷◌ m) unsent)))
            | inr (e, thrown, inr left) ↦ rw thrown (inr (e, refl, inr (left ∙ unsent)))
          ]

  -- A message that goes to the dead letters is sent there as one message, unless a call throws; a
  -- redrive that takes this message sends it to the topic of the events, and what the consumer then gets
  -- has the value of the original, byte by byte, and for its key the bytes of the original key read as
  -- UTF-8 and written again, or none if the original had none. Kafka delivers what was sent.
  pub publish_to_dlq-redelivered :
      (payload : EachMessagePayload) (error : Exception) (parsed : Option ParsedEvent) (w : W)
      → (m : ProducerRecord) × Does broker.sent
          (publish_to_dlq r (over r broker.producer c) payload error parsed)
          w
          tt
          (m ∷ broker.sent w)
        × (m.topic ≡ message_created_dlq_topic)
        × ((republish_dlq_message (broker.deliver_dead_letter m)).topic ≡ message_created_topic)
        × ((redelivered broker m).value ≡ payload.value)
        × ((redelivered broker m).key ≡ rewritten r payload.key)
  unfolding republish_dlq_message decode_key
  publish_to_dlq-redelivered payload error parsed w =
      let m = letter r c (time_of (c.new_date w).0) payload error parsed in
      let again = republish_dlq_message (broker.deliver_dead_letter m) in
      (
        m,
        publish_to_dlq-Does payload error parsed w,
        refl,
        refl,
        laws.value again ∙ laws.letter_value m ∙ value_bytes-raw_value payload.value,
        laws.key again ∙ laws.letter_key m ∙ key_bytes-decode_key payload.key,
      )
