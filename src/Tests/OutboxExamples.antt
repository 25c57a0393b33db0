-- ===== src/Tests/OutboxExamples.antt =====
-- The outbox's theorems at concrete documents and histories.
use message_management_api.Prelude.{
  String, false, ◌≤◌, refl, inl, none, some, List, [], ◌∷◌, All, arith, eq_iff, ◌≢◌,
}
use message_management_api.Effects.{ok, err}
use message_management_api.Domain.{
  ClaimPublishableOutboxEventsInput, MarkPublishedOutboxEventInput, ScheduleOutboxRetryInput,
  MarkFailedOutboxEventInput, CreateOutboxEventInput, pending, published, failed,
}
use message_management_api.Persistence.Collection.{Does}
use message_management_api.Persistence.Schemas.{OutboxEventEntity}
use message_management_api.Persistence.OutboxRepository.{
  OutboxModel, claim_publishable, mark_published, schedule_retry, mark_failed, outbox_repository,
  map_outbox_event,
}
use message_management_api.Persistence.OutboxRepository.Claims.{Claimed, claim_publishable-Claimed}
use message_management_api.Outbox.{creates, claims, publishes, expires, run, apply}
use message_management_api.Outbox.Leases.{Holds, run-Holds}
use message_management_api.Outbox.Lifecycle.{IsValid, run-IsValid}
use message_management_api.Outbox.Transitions.{AllMove, apply-AllMove}
use message_management_api.Outbox.Acknowledgements.{
  Owns, Acknowledged, acknowledgements-Acknowledged,
}
use message_management_api.Outbox.Runs.{Runs}
use message_management_api.Publisher.{Publisher, publish_event}
use message_management_api.Publisher.Refinement.{LeavesOutbox, IsAttempt, over, publish_event-Runs}
use message_management_api.Publisher.RetryDelay.{
  calculate_retry_delay_ms, calculate_index_retry_delay_ms, retry_delays-bounded,
}
use message_management_api.Publisher.Loop.{
  Reach, here, next, fires, initial, on_module_init, start_run, IsSound, on_module_init-IsSound,
}
use message_management_api.Cli.OutboxMaintenance.{
  RedriveFailedOutboxInput, redrive_failed, summary_of,
}
use message_management_api.Cli.OutboxMaintenance.Selection.{reset, redrive_failed-Does}
use message_management_api.Tests.Data.{
  cursors, memory, memory-IsModel, held_document, waiting_document, failed_document, timeout,
}

abbrev documents : List OutboxEventEntity
documents = held_document ∷ waiting_document ∷ []

abbrev outbox : OutboxModel (List OutboxEventEntity)
outbox = memory

abbrev identity : List OutboxEventEntity → List OutboxEventEntity
identity ds = ds

abbrev claim : ClaimPublishableOutboxEventsInput
claim = record { batch_size = 2; locked_by = "b"; lock_timeout_ms = 100; now = 20 }

claim_publishable-Claimed_example :
    Claimed identity cursors claim 2 [] documents (claim_publishable cursors outbox claim documents)
claim_publishable-Claimed_example =
    claim_publishable-Claimed cursors outbox identity memory-IsModel claim (omega arith) documents

abbrev by_another : MarkPublishedOutboxEventInput
by_another = record { id = "aaaaaaaaaaaaaaaaaaaaaaaa"; locked_by = "b"; published_at = 30 }

another : ◌≢◌ {A = String} "b" "a"
another = ground (arith, eq_iff "b" "a")

run-Holds_example :
    Holds held_document
      (run cursors (claims claim ∷ publishes by_another ∷ expires 40 ∷ []) documents)
run-Holds_example =
    run-Holds cursors held_document "a" 10 refl refl refl
      (claims claim ∷ publishes by_another ∷ expires 40 ∷ []) documents
      (omega arith, (inl another, (tt, tt))) (inl refl)

abbrev created : CreateOutboxEventInput
created = record {
  event_id = "e";
  event_type = "message.created";
  event_version = 1;
  topic = "messages.message-created.v1";
  key = "c";
  payload = held_document.payload;
  next_attempt_at = 3;
  created_at = 2;
}

run-IsValid_example :
    All IsValid (run cursors (creates 1 created ∷ claims claim ∷ publishes by_another ∷ []) [])
run-IsValid_example =
    run-IsValid cursors (creates 1 created ∷ claims claim ∷ publishes by_another ∷ [])

apply-AllMove_example : AllMove documents (apply cursors (claims claim) documents)
apply-AllMove_example = apply-AllMove cursors (claims claim) documents tt

abbrev retry : ScheduleOutboxRetryInput
retry = record {
  id = "aaaaaaaaaaaaaaaaaaaaaaaa";
  locked_by = "a";
  attempts = 1;
  next_attempt_at = 50;
  last_error = "no broker";
}

abbrev failure_input : MarkFailedOutboxEventInput
failure_input = record {
  id = "aaaaaaaaaaaaaaaaaaaaaaaa";
  locked_by = "a";
  attempts = 10;
  failed_at = 30;
  last_error = "no broker";
}

-- The first is of a lock that another publisher holds, the others are of an owned one.
acknowledgements-Acknowledged_example :
    Acknowledged identity
      (Owns cursors by_another.id by_another.locked_by)
      (λ d. record d {
        status = published;
        published_at = some by_another.published_at;
        last_error = none;
        locked_at = none;
        locked_by = none;
      })
      (mark_published cursors outbox by_another)
      documents
    × Acknowledged identity
        (Owns cursors retry.id retry.locked_by)
        (λ d. record d {
          status = pending;
          attempts = retry.attempts;
          next_attempt_at = retry.next_attempt_at;
          last_error = some retry.last_error;
          locked_at = none;
          locked_by = none;
        })
        (schedule_retry cursors outbox retry)
        documents
    × Acknowledged identity
        (Owns cursors failure_input.id failure_input.locked_by)
        (λ d. record d {
          status = failed;
          attempts = failure_input.attempts;
          next_attempt_at = failure_input.failed_at;
          last_error = some failure_input.last_error;
          locked_at = none;
          locked_by = none;
        })
        (mark_failed cursors outbox failure_input)
        documents
acknowledgements-Acknowledged_example =
    acknowledgements-Acknowledged cursors outbox identity memory-IsModel documents by_another retry
      failure_input

abbrev publisher : Publisher (List OutboxEventEntity)
publisher = record {
  batch_size = 50;
  lock_timeout_ms = 30_000;
  max_attempts = 10;
  instance_id = "a";
  outbox_repository = outbox_repository cursors outbox;
  publish_json = λ m ds. (err timeout, ds);
  new_date = λ ds. (ok 30, ds);
  random = λ ds. (ok 0, ds);
  record_outbox_publish_duration = λ a b ds. ds;
  record_outbox_published = λ a b ds. ds;
  record_outbox_failed = λ a b ds. ds;
  set_outbox_pending_stats = λ a b ds. ds;
  log_lost_lock = λ e t ds. ds;
}

publisher-LeavesOutbox : LeavesOutbox publisher identity
publisher-LeavesOutbox = record {
  publish_json = λ m w. refl;
  new_date = λ w. refl;
  random = λ w. refl;
  duration = λ a b w. refl;
  published = λ a b w. refl;
  failed = λ a b w. refl;
  gauges = λ a b w. refl;
  lost = λ e t w. refl;
}

publish_event-Runs_example :
    Runs cursors identity
      (IsAttempt publisher documents (map_outbox_event cursors held_document))
      (publish_event cursors
        (over cursors outbox publisher)
        (map_outbox_event cursors held_document))
      documents
publish_event-Runs_example =
    publish_event-Runs cursors outbox identity memory-IsModel publisher publisher-LeavesOutbox
      documents (map_outbox_event cursors held_document)

retry_delays-bounded_example :
    ((800 ≤ calculate_retry_delay_ms 3 77) × (calculate_retry_delay_ms 3 77 ≤ 360000))
    × ((200 ≤ calculate_index_retry_delay_ms 3 77) × (calculate_index_retry_delay_ms 3 77 ≤ 9600))
retry_delays-bounded_example = retry_delays-bounded 3 77 (omega arith)

first_run : Reach 1000 (on_module_init initial) (start_run 1000 (on_module_init initial))
unfolding on_module_init
first_run = next here (fires refl refl)

on_module_init-IsSound_example : IsSound (start_run 1000 (on_module_init initial))
on_module_init-IsSound_example =
    on_module_init-IsSound 1000 (start_run 1000 (on_module_init initial)) first_run

-- Of two failed documents, the command names one.
abbrev redrive : RedriveFailedOutboxInput
redrive = record {
  dry_run = false;
  event_ids = [];
  ids = "aaaaaaaaaaaaaaaaaaaaaaaa" ∷ [];
  limit = some 5;
  now = 30;
}

abbrev unnamed_document : OutboxEventEntity
unnamed_document = record failed_document { _id = 2 }

redrive_failed-Does_example :
    Does identity
      (redrive_failed cursors outbox redrive)
      (failed_document ∷ unnamed_document ∷ [])
      (record {
        matched_count = 1;
        modified_count = 1;
        events = summary_of cursors failed_document ∷ [];
      })
      (reset 30 failed_document ∷ unnamed_document ∷ [])
redrive_failed-Does_example =
    redrive_failed-Does cursors outbox identity memory-IsModel redrive
      (failed_document ∷ unnamed_document ∷ []) (refl, tt) (refl, (refl, tt))
