-- ===== src/Tests/DeadLetterExamples.antt =====
-- The theorems on the dead letters at concrete inputs.
use message_management_api.Prelude.{ℕ, ◌+◌, ◌≡◌, refl, inl, false, none, some, List, [], ◌∷◌, arith}
use message_management_api.Effects.{ok, err}
use message_management_api.Runtime.{Runtime}
use message_management_api.Persistence.Collection.{Does}
use message_management_api.Messaging.Producer.{ProducerRecord}
use message_management_api.Messaging.Topics.{message_created_dlq_topic}
use message_management_api.Domain.{message_created_topic}
use message_management_api.Cli.DlqRedrive.{
  DlqRedriveInput, DeadLetter, Clients, no_progress, delivers, waiting, consume_until_done,
  republish_dlq_message,
}
use message_management_api.Cli.DlqRedrive.Ends.{is_waiting, consume_until_done-waits}
use message_management_api.Indexer.{Consumer, publish_to_dlq}
use message_management_api.Indexer.Headers.{
  EachMessagePayload, HeaderValue, HeaderPart, get_header, build_dlq_headers,
}
use message_management_api.Indexer.Headers.Values.{build_dlq_headers-values}
use message_management_api.Indexer.DeadLetters.{
  Broker, IsBroker, SendsNothing, over, redelivered, key_bytes, value_bytes,
  publish_to_dlq-redelivered,
}
use message_management_api.Tests.Data.{cursors, timeout}

abbrev letter : DeadLetter
letter = record { topic = "d"; partition = 0; offset = 4; key = none; value = none }

abbrev clients : Clients ℕ
clients = record {
  send = λ m n. (ok tt, n + 1);
  commit_offsets = λ o n. (ok tt, n);
  stop = λ n. (ok tt, n);
  after_message = λ options m n. n;
}

abbrev limited_to_two : DlqRedriveInput
limited_to_two = record { dry_run = false; idle_timeout_ms = 5000; limit = 2 }

consume_until_done-waits_example :
    is_waiting
      (consume_until_done clients limited_to_two
        (delivers letter ∷ delivers letter ∷ [])
        waiting
        no_progress
        0).0.0
    ≡ false
consume_until_done-waits_example =
    consume_until_done-waits clients limited_to_two
      (record { send = λ m w. refl; commit_offsets = λ o w. refl })
      (delivers letter ∷ delivers letter ∷ []) 0 (omega arith)

-- The only text that this runtime knows.
abbrev one_text : Runtime
one_text = record cursors { utf8_bytes = λ s. 99 ∷ []; utf8_text = λ b. "c" }

abbrev delivered : EachMessagePayload
delivered = record {
  topic = "messages.message-created.v1";
  partition = 2;
  offset = "7";
  key = some (99 ∷ []);
  value = some (1 ∷ 2 ∷ []);
  headers = some (
      ("trace", HeaderValue.undefined)
      ∷ ("trace", HeaderValue.parts (HeaderPart.text "t" ∷ []))
      ∷ []);
}

build_dlq_headers-values_example :
    let headers = build_dlq_headers one_text 5 delivered timeout none in
    (get_header "x-original-topic" headers ≡ some "messages.message-created.v1")
    × (get_header "x-original-partition" headers ≡ some (one_text.decimal 2))
    × (get_header "x-original-offset" headers ≡ some "7")
    × (get_header "x-failed-at" headers ≡ some (one_text.iso_text 5))
    × (get_header "x-error-message" headers ≡ some "timed out")
    × (get_header "x-error-class" headers ≡ some "TimeoutError")
    × (get_header "x-correlation-id" headers ≡ none)
    × (get_header "trace" headers ≡ some "t")
build_dlq_headers-values_example =
    build_dlq_headers-values one_text 5 delivered timeout none "trace" refl refl

-- A broker that keeps what was sent.
abbrev broker : Broker (List ProducerRecord)
broker = record {
  producer = record {
    connect = λ ms. (ok tt, ms);
    disconnect = λ ms. (ok tt, ms);
    send = λ m ms. (ok tt, m ∷ ms);
  };
  sent = λ ms. ms;
  deliver_dead_letter = λ m. record {
    topic = m.topic;
    partition = 0;
    offset = 0;
    key = key_bytes one_text m.key;
    value = value_bytes one_text m.value;
  };
  deliver = λ m. record {
    topic = m.topic;
    partition = 0;
    offset = "8";
    key = m.key;
    value = m.value;
    headers = none;
  };
}

broker-IsBroker : IsBroker one_text broker
broker-IsBroker = record {
  send = λ m w. inl (refl, refl);
  letter_key = λ m. refl;
  letter_value = λ m. refl;
  key = λ m. refl;
  value = λ m. refl;
}

abbrev indexer : Consumer (List ProducerRecord)
indexer = record {
  message_search = record {
    index_message = λ d ms. (err timeout, ms);
    search_messages = λ q ms. (err timeout, ms);
  };
  publish_raw = λ m ms. (ok tt, ms);
  new_date = λ ms. (ok 30, ms);
  random = λ ms. (ok 0, ms);
  delay = λ t ms. (ok tt, ms);
  record_search_indexer_indexed = λ t ms. ms;
  record_search_indexer_index_duration = λ t ms. ms;
  record_search_indexer_dlq = λ t reason ms. ms;
  record_search_indexer_skipped = λ t reason ms. ms;
  log_unknown_version = λ p ms. ms;
  log_dlq = λ p reason ms. ms;
}

indexer-SendsNothing : SendsNothing indexer broker.sent
indexer-SendsNothing = record {
  new_date = λ w. refl;
  metric = λ topic reason w. refl;
  log = λ p reason w. refl;
  index_message = λ d w. refl;
  random = λ w. refl;
  delay = λ ms w. refl;
  indexed = λ t w. refl;
  duration = λ t w. refl;
  skipped = λ t reason w. refl;
  unknown = λ p w. refl;
}

publish_to_dlq-redelivered_example :
    (m : ProducerRecord) × Does broker.sent
      (publish_to_dlq one_text (over one_text broker.producer indexer) delivered timeout none)
      []
      tt
      (m ∷ [])
    × (m.topic ≡ message_created_dlq_topic)
    × ((republish_dlq_message (broker.deliver_dead_letter m)).topic ≡ message_created_topic)
    × ((redelivered broker m).value ≡ some (1 ∷ 2 ∷ []))
    × ((redelivered broker m).key ≡ some (99 ∷ []))
publish_to_dlq-redelivered_example =
    publish_to_dlq-redelivered one_text broker broker-IsBroker indexer indexer-SendsNothing
      delivered timeout none []
