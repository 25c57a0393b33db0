-- ===== src/Cli/DlqRedrive.antt =====
-- apps/cli/src/services/dlq-redrive.service.ts. What kafkajs delivers is a list of events.
pub mod Counts
pub mod Calls
pub mod Ends
pub mod Rehearsal
use message_management_api.Prelude.{
  ℕ, suc, ◌+◌, leb, String, Bool, true, false, Option, none, some, List, [], ◌∷◌, if◌then◌else◌,
}
use message_management_api.Effects.{
  Io, pure, throw, ◌>>=◌, ◌>>◌, Result, ok, err, Exception, failure, Result-cases,
}
use message_management_api.Runtime.{Buffer}
use message_management_api.Domain.{message_created_topic}
use message_management_api.Messaging.Topics.{message_created_dlq_topic}

pub record DlqRedriveInput : Type 0 where
  pub dry_run : Bool
  pub idle_timeout_ms : ℕ
  pub limit : ℕ

pub data StopReason : Type 0 where
  idle_timeout limit_reached : StopReason

-- A delivered dead letter: `offset` is the number that the text of the offset holds.
pub record DeadLetter : Type 0 where
  pub topic : String
  pub partition : ℕ
  pub offset : ℕ
  pub key : Option Buffer
  pub value : Option Buffer

-- The message that is sent to a topic, and the offset that is committed for a partition.
pub record Republished : Type 0 where
  pub topic : String
  pub key : Option Buffer
  pub value : Option Buffer

pub record CommittedOffset : Type 0 where
  pub topic : String
  pub partition : ℕ
  pub offset : ℕ

-- What `consumer.run` is given besides the handler.
pub record RunOptions : Type 0 where
  pub auto_commit : Bool

abbrev pub run_options : RunOptions
run_options = record { auto_commit = false }

-- The calls of the producer and the consumer. `after_message` is what kafkajs does by itself, with the
-- options of `run`, once the handler of a message has returned.
pub record Clients (W : Type 0) : Type 0 where
  pub send : Republished → Io W (Unit {0})
  pub commit_offsets : CommittedOffset → Io W (Unit {0})
  pub stop : Io W (Unit {0})
  pub after_message : RunOptions → DeadLetter → W → W

-- The local variables of `redrive`, which the handler changes.
pub record Progress : Type 0 where
  pub consumed_count : ℕ
  pub republished_count : ℕ
  pub committed_count : ℕ
  pub stop_reason : StopReason

abbrev pub no_progress : Progress
no_progress = record {
  consumed_count = 0;
  republished_count = 0;
  committed_count = 0;
  stop_reason = idle_timeout;
}

unfoldable pub republish_dlq_message : DeadLetter → Republished
republish_dlq_message m = record { topic = message_created_topic; key = m.key; value = m.value }

unfoldable pub next_offset : ℕ → ℕ
next_offset offset = offset + 1

-- What a handler leaves: its answer or its error, the variables, and the world.
abbrev pub Handled : Type 0 → Type 0
Handled W = (Result Bool × Progress) × W

-- The test behind the republication.
check_limit : {W : Type 0} → DlqRedriveInput → Progress → W → Handled W
check_limit input s w =
    if leb input.limit s.consumed_count
    then ((ok true, record s { stop_reason = limit_reached }), w)
    else ((ok false, s), w)

module _ {W : Type 0} (clients : Clients W) (input : DlqRedriveInput) where
  after_commit : Result (Unit {0}) → Progress → W → Handled W
  unfolding check_limit
  after_commit (err e) s w = ((err e, s), w)
  after_commit (ok done) s w =
      check_limit input (record s { committed_count = s.committed_count + 1 }) w

  after_send : DeadLetter → Result (Unit {0}) → Progress → W → Handled W
  unfolding after_commit next_offset
  after_send m (err e) s w = ((err e, s), w)
  after_send m (ok done) s w =
      let out =
        clients.commit_offsets
          (record { topic = m.topic; partition = m.partition; offset = next_offset m.offset }) w in
      after_commit out.0 (record s { republished_count = s.republished_count + 1 }) out.1

  -- `handlePayload`.
  unfoldable pub handle_payload : DeadLetter → Progress → W → Handled W
  unfolding check_limit after_send republish_dlq_message
  handle_payload m s w =
      let counted = record s { consumed_count = s.consumed_count + 1 } in
      let out = clients.send (republish_dlq_message m) w in
      if input.dry_run then check_limit input counted w else after_send m out.0 counted out.1

-- What happens while `consumeUntilDone` waits: kafkajs delivers a message, the idle timer goes off,
-- or `run` rejects.
pub data Event : Type 0 where
  delivers : DeadLetter → Event
  idles : Event
  rejects : Exception → Event

-- Whether `finish` has been called, and with which error; later calls of it do nothing.
pub data Finish : Type 0 where
  waiting : Finish
  resolved : Finish
  rejected : Exception → Finish

abbrev pub finish : Finish → Finish → Finish
finish waiting f = f
finish f _ = f

-- `if (shouldStop) finish()`; an error of the handler is left to kafkajs, which delivers again.
abbrev pub after_handler : Finish → Result Bool → Finish
after_handler f (ok true) = finish f resolved
after_handler f _ = f

module _ {W : Type 0} (clients : Clients W) (input : DlqRedriveInput) where
  -- The first `finish` stops the consumer; what `stop` throws is caught.
  abbrev pub stopped : Finish → W → W
  stopped waiting w = (clients.stop w).1
  stopped f w = w

  -- What `eachMessage`, and then kafkajs, do once the payload is handled.
  abbrev pub after_payload : DeadLetter → Finish → Result Bool → W → W
  after_payload m f (ok true) w = clients.after_message run_options m (stopped f w)
  after_payload m f (ok false) w = clients.after_message run_options m w
  after_payload m f (err e) w = w

  -- `consumeUntilDone` over the events. `eachMessage` does not look whether `finish` was called.
  unfoldable pub consume_until_done : List Event → Finish → Progress → W → (Finish × Progress) × W
  consume_until_done [] f s w = ((f, s), w)
  consume_until_done (delivers m ∷ events) f s w =
      let out = handle_payload clients input m s w in
      consume_until_done events (after_handler f out.0.0) out.0.1 (after_payload m f out.0.0 out.1)
  consume_until_done (idles ∷ events) f s w =
      consume_until_done events (finish f resolved) s (stopped f w)
  consume_until_done (rejects e ∷ events) f s w =
      consume_until_done events (finish f (rejected e)) s (stopped f w)

pub record DlqRedriveResult : Type 0 where
  pub consumed_count : ℕ
  pub republished_count : ℕ
  pub committed_count : ℕ
  pub stop_reason : StopReason

-- The calls of the consumer and the producer around the handler. What `disconnect` throws is caught.
pub record Connections (W : Type 0) : Type 0 where
  pub connect_consumer : Io W (Unit {0})
  pub connect_producer : Io W (Unit {0})
  pub subscribe : String → Io W (Unit {0})
  pub disconnect_consumer : Io W (Unit {0})
  pub disconnect_producer : Io W (Unit {0})

abbrev pub result_of : Progress → DlqRedriveResult
result_of s = record {
  consumed_count = s.consumed_count;
  republished_count = s.republished_count;
  committed_count = s.committed_count;
  stop_reason = s.stop_reason;
}

-- What `redrive` has come to: none while it waits.
abbrev pub outcome : Finish → Progress → Option (Result DlqRedriveResult)
outcome waiting s = none
outcome resolved s = some (ok (result_of s))
outcome (rejected e) s = some (err e)

module _ {W : Type 0} (connections : Connections W) (clients : Clients W)
    (input : DlqRedriveInput) where
  abbrev pub connect : Io W (Unit {0})
  connect = do
    connections.connect_consumer
    if input.dry_run then pure tt else connections.connect_producer

  abbrev pub disconnect : W → W
  disconnect w = (connections.disconnect_producer (connections.disconnect_consumer w).1).1

  abbrev pub consumed : List Event → Result (Unit {0}) → W → Option (Result DlqRedriveResult) × W
  consumed events (err e) w = (some (err e), disconnect w)
  consumed events (ok done) w =
      let out = consume_until_done clients input events waiting no_progress w in
      elim out.0.0 [ waiting ↦ (none, out.1) | f ↦ (outcome f out.0.1, disconnect out.1) ]

  abbrev pub subscribed : List Event → Result (Unit {0}) → W → Option (Result DlqRedriveResult) × W
  subscribed events (err e) w = (some (err e), w)
  subscribed events (ok done) w =
      let out = connections.subscribe message_created_dlq_topic w in consumed events out.0 out.1

  -- `redrive`, over what happens while it consumes.
  unfoldable pub redrive : List Event → W → Option (Result DlqRedriveResult) × W
  redrive events w = let out = connect w in subscribed events out.0 out.1
