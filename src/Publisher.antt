-- ===== src/Publisher.antt =====
-- apps/outbox-publisher/src/publisher.service.ts: one poll of the outbox. The port, the producer
-- service, the clock, the random numbers, the metrics and the log are parameters.
pub mod RetryDelay
pub mod Loop
pub mod Refinement
pub mod Polls
pub mod Settles
use message_management_api.Prelude.{
  ℕ, ◌+◌, ◌-◌, String, Bool, true, false, not, Option, none, some, List, [], ◌∷◌, leb, length,
  if◌then◌else◌,
}
use message_management_api.Json.{Json, obj}
use message_management_api.Effects.{Io, pure, throw, act, try_catch, ◌>>=◌, ◌>>◌, Exception}
use message_management_api.Runtime.{Runtime, error_text}
use message_management_api.Domain.{OutboxEvent, OutboxPendingStats, event_fields}
use message_management_api.Domain.Ports.{OutboxRepositoryPort}
use message_management_api.Messaging.Producer.{PublishJsonMessageInput}
use RetryDelay.{calculate_retry_delay_ms}

abbrev pub max_last_error_length : ℕ
max_last_error_length = 2000

pub data Transition : Type 0 where
  to_published to_failed to_retry : Transition

-- What the service holds or calls. A gauge of seconds is given in milliseconds.
pub record Publisher (W : Type 0) : Type 0 where
  pub batch_size : ℕ
  pub lock_timeout_ms : ℕ
  pub max_attempts : ℕ
  pub instance_id : String
  pub outbox_repository : OutboxRepositoryPort W
  pub publish_json : PublishJsonMessageInput → Io W (Unit {0})
  -- `new Date()` and `Math.random()`.
  pub new_date : Io W ℕ
  pub random : Io W ℕ
  pub record_outbox_publish_duration : String → String → W → W
  pub record_outbox_published : String → String → W → W
  pub record_outbox_failed : String → String → W → W
  pub set_outbox_pending_stats : ℕ → ℕ → W → W
  pub log_lost_lock : OutboxEvent → Transition → W → W

abbrev pub age_ms : ℕ → Option ℕ → ℕ
age_ms now none = 0
age_ms now (some created_at) = now - created_at

-- `constructor`: the settings with their defaults.
unfoldable pub configured :
    {W : Type 0} → Option ℕ → Option ℕ → Option ℕ → Publisher W → Publisher W
configured batch_size lock_timeout_ms max_attempts p = record p {
  batch_size = elim batch_size [ none ↦ 50 | some n ↦ n ];
  lock_timeout_ms = elim lock_timeout_ms [ none ↦ 30_000 | some n ↦ n ];
  max_attempts = elim max_attempts [ none ↦ 10 | some n ↦ n ];
}

module _ {W : Type 0} (r : Runtime) (p : Publisher W) where
  unfoldable pub normalize_error : Exception → String
  normalize_error e = r.slice max_last_error_length (error_text r e)

  -- The last attempt failed.
  unfoldable pub give_up : OutboxEvent → ℕ → ℕ → String → Io W (Unit {0})
  give_up event attempts now last_error = do
    marked ← p.outbox_repository.mark_failed (record {
      id = event.id;
      locked_by = p.instance_id;
      attempts = attempts;
      failed_at = now;
      last_error = last_error;
    })
    if marked
        then act (p.record_outbox_failed event.topic event.event_type)
        else act (p.log_lost_lock event to_failed)

  unfoldable pub retry_later : OutboxEvent → ℕ → ℕ → String → Io W (Unit {0})
  retry_later event attempts now last_error = do
    random ← p.random
    scheduled ← p.outbox_repository.schedule_retry (record {
      id = event.id;
      locked_by = p.instance_id;
      attempts = attempts;
      next_attempt_at = now + calculate_retry_delay_ms attempts random;
      last_error = last_error;
    })
    if scheduled then pure tt else act (p.log_lost_lock event to_retry)

  unfoldable pub handle_publish_failure : OutboxEvent → Exception → Io W (Unit {0})
  unfolding normalize_error give_up retry_later
  handle_publish_failure event error = do
    let attempts = event.attempts + 1
    now ← p.new_date
    let last_error = normalize_error error
    if leb p.max_attempts attempts
        then give_up event attempts now last_error
        else retry_later event attempts now last_error

  -- The second half of the block that `publishEvent` guards by its `catch`.
  unfoldable pub acknowledge : OutboxEvent → ℕ → Io W (Unit {0})
  acknowledge event now = do
    marked ←
        p.outbox_repository.mark_published
          (record { id = event.id; locked_by = p.instance_id; published_at = now })
    if marked
        then act (p.record_outbox_published event.topic event.event_type)
        else act (p.log_lost_lock event to_published)

  unfoldable pub try_publish : OutboxEvent → Io W (Unit {0})
  unfolding acknowledge
  try_publish event = do
    p.publish_json (record {
      key = event.key;
      payload = obj (event_fields event.payload);
      topic = event.topic;
      headers = none;
    })
    act (p.record_outbox_publish_duration event.topic event.event_type)
    now ← p.new_date
    acknowledge event now

  unfoldable pub publish_event : OutboxEvent → Io W (Unit {0})
  unfolding try_publish handle_publish_failure
  publish_event event = try_catch (try_publish event) (handle_publish_failure event)

  -- `for (const event of events) await this.publishEvent(event)`.
  unfoldable pub publish_events : List OutboxEvent → Io W (Unit {0})
  publish_events [] = pure tt
  publish_events (event ∷ events) = do publish_event event; publish_events events

  unfoldable pub update_pending_metrics : ℕ → Io W (Unit {0})
  update_pending_metrics now = do
    stats ← p.outbox_repository.get_pending_stats
    act (
        p.set_outbox_pending_stats stats.pending_count (age_ms now stats.oldest_pending_created_at))

  unfoldable pub run_once : Io W ℕ
  unfolding publish_events update_pending_metrics
  run_once = do
    now ← p.new_date
    events ← p.outbox_repository.claim_publishable (record {
      batch_size = p.batch_size;
      locked_by = p.instance_id;
      lock_timeout_ms = p.lock_timeout_ms;
      now = now;
    })
    publish_events events
    later ← p.new_date
    update_pending_metrics later
    pure (length events)
