-- ===== src/Lib.antt =====
-- Verification library of the message management API.
--
-- The program stores chat messages and makes them searchable. The API (apps/api) writes a message
-- and an outbox event in one MongoDB transaction. The outbox publisher (apps/outbox-publisher)
-- claims due events, sends them to Kafka, and acknowledges, postpones or gives them up. The search
-- indexer (apps/search-indexer) consumes the events, indexes them in Elasticsearch, and sends what
-- it cannot index to a dead-letter topic. The command-line tools (apps/cli) redrive failed events
-- and dead letters and rebuild the index.
--
-- The files and the code they model:
--   Prelude, Json, Effects, Runtime: shared names, JSON values, what an awaited call does (a result
--     and a world), and the calls of JavaScript and Node as parameters.
--   Domain: libs/domain/src (message.ts, events, ports).
--   Persistence: libs/persistence/src. OutboxRepository is mongo-outbox.repository.ts,
--     MessageRepository is mongo-message.repository.ts, Transactions is the transaction manager,
--     Schemas the documents. Collection states what MongoDB documents of its calls.
--   Outbox: the outbox collection as all processes share it: every call is an action on the list
--     of documents (claims, publishes, retries, fails, redrives, creates, expires), and a history
--     is a list of actions. Outbox/Acknowledgements has what a publisher relies on.
--   Publisher: apps/outbox-publisher/src/publisher.service.ts. publish_event is `publishEvent`,
--     run_once is `runOnce`; Publisher/Polls has what a poll does to the outbox, Publisher/Settles how
--     an event comes to its end, Publisher/Loop has the flags and the timer as a step relation, and
--     Publisher/RetryDelay both retry delays of the program.
--   Indexer: apps/search-indexer/src/message-created.consumer.ts. handle_message is
--     `handleMessage`; Indexer/Parse has the parsing, Indexer/Headers the dead-letter headers,
--     Indexer/Lifecycle the start and the end of the consumer, Indexer/Outcomes what becomes of a
--     message, and Indexer/DeadLetters the way of a message through the dead letters and back.
--   Application: libs/application/src: the cursor and the three services.
--   Search: libs/search/src (es-message-search.ts, index-manager.service.ts).
--   Messaging: libs/messaging/src (the producer service and the topics).
--   Observability: libs/observability/src (correlation ids and metrics).
--   Api: apps/api/src (the guard, the exception filter, the validation, the controllers).
--   Cli: apps/cli/src (the maintenance services and the commands). OutboxMaintenance/Selection has the
--     choice of a redrive, DlqRedrive/Calls the calls of Kafka, DlqRedrive/Rehearsal the dry run.
--   Health: the health indicators of libs/*/src and the health controllers of apps/*/src.
--   Config: libs/config/src (message-management-config.module.ts and the schema of the environment).
--   Tests: the theorems at concrete inputs.
--
-- A service is a set of functions over its dependencies, which are records of operations; an
-- operation takes the world and gives a result and a world. MongoDB, Kafka, Elasticsearch, clocks
-- and random numbers are such records, and what a theorem needs of them is a named hypothesis.
-- Every single call of MongoDB is atomic; a call that throws may have been carried out. A transaction
-- that throws has been aborted, or committed as a whole.
--
-- Bounds: loops over a batch or over attempts recurse on the number of rounds that the source
-- bounds them by. The client of `collect` runs on fuel, and more fuel than there are messages is
-- enough, since every page but the last holds a message. Numbers are natural numbers; the source's
-- numbers stay far below 2 ^ 53. A Date is its number of milliseconds.
--
-- Not modelled: the wiring of NestJS, log output, the OpenAPI documents, the metrics routes, the making of the clients, and what
-- the histograms do with the values that they observe.
pub mod Prelude
pub mod Json
pub mod Effects
pub mod Runtime
pub mod Domain
pub mod Persistence
pub mod Messaging
pub mod Observability
pub mod Publisher
pub mod Indexer
pub mod Application
pub mod Search
pub mod Cli
pub mod Api
pub mod Health
pub mod Config
pub mod Outbox
pub mod Tests
