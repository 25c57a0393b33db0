-- ===== src/Publisher/Refinement.antt =====
-- The publisher over the MongoDB repository: what one poll does to the outbox documents.
use message_management_api.Prelude.{ℕ, String, ◌+◌, ◌≤◌, ◌<◌, ◌≡◌, refl, List, leb, arith, none}
use message_management_api.Json.{obj}
use message_management_api.Effects.{Io, ok, Exception, ◌>>=◌, pure, act}
use message_management_api.Runtime.{Runtime}
use message_management_api.Domain.{
  OutboxEvent, event_fields, MarkFailedOutboxEventInput, MarkPublishedOutboxEventInput,
  ScheduleOutboxRetryInput,
}
use message_management_api.Messaging.Producer.{PublishJsonMessageInput}
use message_management_api.Persistence.Collection.{IsModel}
use message_management_api.Persistence.Schemas.{OutboxEventEntity}
use message_management_api.Persistence.OutboxRepository.{
  OutboxModel, outbox_repository, mark_published, schedule_retry, mark_failed,
}
use message_management_api.Outbox.{Action, publishes, retries, fails}
use message_management_api.Outbox.Refinement.{
  mark_published-Does, schedule_retry-Does, mark_failed-Does,
}
use message_management_api.Outbox.Runs.{
  Runs, Runs-none, Runs-act, Runs-one, Runs-bind, Runs-try, Runs-if,
}
use message_management_api.Publisher.{
  Publisher, Transition, to_published, to_failed, to_retry, acknowledge, give_up, retry_later,
  handle_publish_failure, try_publish, publish_event,
}
use message_management_api.Publisher.RetryDelay.{calculate_retry_delay_ms}

-- The message that the producer is given for an event.
abbrev pub event_message : OutboxEvent → PublishJsonMessageInput
event_message event = record {
  key = event.key;
  payload = obj (event_fields event.payload);
  topic = event.topic;
  headers = none;
}

-- Publishing to Kafka, the clock, the random numbers, metrics and log do not touch the outbox.
pub record LeavesOutbox {W : Type 0} (p : Publisher W) (docs : W → List OutboxEventEntity)
    : Type 0 where
  pub publish_json : (m : PublishJsonMessageInput) (w : W) → docs (p.publish_json m w).1 ≡ docs w
  pub new_date : (w : W) → docs (p.new_date w).1 ≡ docs w
  pub random : (w : W) → docs (p.random w).1 ≡ docs w
  pub duration : (a b : String) (w : W) → docs (p.record_outbox_publish_duration a b w) ≡ docs w
  pub published : (a b : String) (w : W) → docs (p.record_outbox_published a b w) ≡ docs w
  pub failed : (a b : String) (w : W) → docs (p.record_outbox_failed a b w) ≡ docs w
  pub gauges : (a b : ℕ) (w : W) → docs (p.set_outbox_pending_stats a b w) ≡ docs w
  pub lost : (e : OutboxEvent) (t : Transition) (w : W) → docs (p.log_lost_lock e t w) ≡ docs w

-- The publisher with the MongoDB repository.
abbrev pub over : {W : Type 0} → Runtime → OutboxModel W → Publisher W → Publisher W
over r model p = record p { outbox_repository = outbox_repository r model }

-- What one attempt at an event may do to the outbox: acknowledge it, by this publisher's name, if
-- Kafka took the message; else count the attempt, and postpone the event if attempts are left or
-- give it up if none is.
abbrev pub IsAttempt : {W : Type 0} → Publisher W → W → OutboxEvent → Action → Type 0
IsAttempt p w event (publishes input) =
    (input.id ≡ event.id)
    × (input.locked_by ≡ p.instance_id)
    × ((p.publish_json (event_message event) w).0 ≡ ok tt)
IsAttempt p w event (retries input) =
    (input.id ≡ event.id)
    × (input.locked_by ≡ p.instance_id)
    × (input.attempts ≡ event.attempts + 1)
    × (input.attempts < p.max_attempts)
IsAttempt p w event (fails input) =
    (input.id ≡ event.id)
    × (input.locked_by ≡ p.instance_id)
    × (input.attempts ≡ event.attempts + 1)
    × (p.max_attempts ≤ input.attempts)
IsAttempt p w event _ = ⊥

module _ {W : Type 0} (r : Runtime) (model : OutboxModel W) (docs : W → List OutboxEventEntity)
    (laws : IsModel model docs) (p : Publisher W) (leaves : LeavesOutbox p docs) (start : W)
    (event : OutboxEvent) where
  abbrev Kind : Action → Type 0
  Kind = IsAttempt p start event

  give_up-Runs :
      (now : ℕ) (last_error : String) (w : W)
      → p.max_attempts ≤ event.attempts + 1
      → Runs r docs Kind (give_up r (over r model p) event (event.attempts + 1) now last_error) w
  unfolding give_up
  give_up-Runs now last_error w bound =
      let input : MarkFailedOutboxEventInput = record {
        id = event.id;
        locked_by = p.instance_id;
        attempts = event.attempts + 1;
        failed_at = now;
        last_error = last_error;
      } in
      let w' = (mark_failed r model input w).1 in
      let marked_failed = p.record_outbox_failed event.topic event.event_type in
      Runs-bind r docs Kind (mark_failed r model input) _ w
        (Runs-one r docs Kind (mark_failed r model input) w (fails input) (refl, refl, refl, bound)
          (mark_failed-Does r model docs laws w input))
        (λ marked _.
          Runs-if r docs Kind marked _ _ w'
            (λ _. Runs-act r docs Kind marked_failed w' (leaves.failed _ _ w'))
            (λ _. Runs-act r docs Kind (p.log_lost_lock event to_failed) w' (leaves.lost _ _ w')))

  retry_later-Runs :
      (now : ℕ) (last_error : String) (w : W)
      → event.attempts + 1 < p.max_attempts
      → Runs r docs Kind
          (retry_later r (over r model p) event (event.attempts + 1) now last_error)
          w
  unfolding retry_later
  retry_later-Runs now last_error w bound =
      Runs-bind r docs Kind p.random _ w (Runs-none r docs Kind p.random w (leaves.random w))
        (λ random _.
          let input : ScheduleOutboxRetryInput = record {
            id = event.id;
            locked_by = p.instance_id;
            attempts = event.attempts + 1;
            next_attempt_at = now + calculate_retry_delay_ms (event.attempts + 1) random;
            last_error = last_error;
          } in
          let v = (p.random w).1 in
          let v' = (schedule_retry r model input v).1 in
          Runs-bind r docs Kind (schedule_retry r model input) _ v
            (Runs-one r docs Kind (schedule_retry r model input) v (retries input)
              (refl, refl, refl, bound) (schedule_retry-Does r model docs laws v input))
            (λ scheduled _.
              Runs-if r docs Kind scheduled _ _ v' (λ _. Runs-none r docs Kind (pure tt) v' refl)
                (λ _.
                  Runs-act r docs Kind (p.log_lost_lock event to_retry) v' (leaves.lost _ _ v'))))

  handle_publish_failure-Runs :
      (e : Exception) (w : W)
      → Runs r docs Kind (handle_publish_failure r (over r model p) event e) w
  unfolding handle_publish_failure
  handle_publish_failure-Runs e w =
      Runs-bind r docs Kind p.new_date _ w (Runs-none r docs Kind p.new_date w (leaves.new_date w))
        (λ now _.
          Runs-if r docs Kind (leb p.max_attempts (event.attempts + 1)) _ _ (p.new_date w).1
            (λ h. give_up-Runs now _ _ (ground arith))
            (λ h. retry_later-Runs now _ _ (ground arith)))

  acknowledge-Runs :
      (p.publish_json (event_message event) start).0 ≡ ok tt
      → (now : ℕ) (w : W) → Runs r docs Kind (acknowledge r (over r model p) event now) w
  unfolding acknowledge
  acknowledge-Runs sent now w =
      let input : MarkPublishedOutboxEventInput = record {
        id = event.id;
        locked_by = p.instance_id;
        published_at = now;
      } in
      let w' = (mark_published r model input w).1 in
      let marked_published = p.record_outbox_published event.topic event.event_type in
      Runs-bind r docs Kind (mark_published r model input) _ w
        (Runs-one r docs Kind (mark_published r model input) w (publishes input) (refl, refl, sent)
          (mark_published-Does r model docs laws w input))
        (λ marked _.
          Runs-if r docs Kind marked _ _ w'
            (λ _. Runs-act r docs Kind marked_published w' (leaves.published _ _ w'))
            (λ _.
              Runs-act r docs Kind (p.log_lost_lock event to_published) w' (leaves.lost _ _ w')))

  try_publish-Runs : Runs r docs Kind (try_publish r (over r model p) event) start
  unfolding try_publish
  try_publish-Runs =
      let send = p.publish_json (event_message event) in
      let w = (send start).1 in
      let observe = p.record_outbox_publish_duration event.topic event.event_type in
      let finish : Io W (Unit {0}) =
        p.new_date >>= λ now. acknowledge r (over r model p) event now in
      Runs-bind r docs Kind send (λ _. act observe >>= λ _. finish) start
        (Runs-none r docs Kind send start (leaves.publish_json (event_message event) start))
        (λ _ sent.
          Runs-bind r docs Kind (act observe) (λ _. finish) w
            (Runs-act r docs Kind observe w (leaves.duration _ _ w))
            (λ _ _.
              Runs-bind r docs Kind p.new_date (acknowledge r (over r model p) event) (observe w)
                (Runs-none r docs Kind p.new_date (observe w) (leaves.new_date (observe w)))
                (λ now _. acknowledge-Runs sent now (p.new_date (observe w)).1)))

  -- One attempt at an event changes the outbox only so: it acknowledges the event by this publisher's
  -- name, which it does only if Kafka took the message; it postpones it with one attempt more,
  -- which it does only if attempts are left; or it gives it up with one attempt more, which it does
  -- only if none is left. Each of these may happen, also one after another where a call of MongoDB
  -- throws after it was carried out. The model behaves as documented, and the other parts that
  -- the publisher calls leave the outbox alone.
  pub publish_event-Runs :
      Runs r docs (IsAttempt p start event) (publish_event r (over r model p) event) start
  unfolding publish_event
  publish_event-Runs =
      Runs-try r docs Kind (try_publish r (over r model p) event)
        (handle_publish_failure r (over r model p) event) start try_publish-Runs
        (λ e _. handle_publish_failure-Runs e (try_publish r (over r model p) event start).1)
