-- ===== src/Persistence/OutboxRepository.antt =====
-- libs/persistence/src/repositories/mongo-outbox.repository.ts.
pub mod Claims
use message_management_api.Prelude.{
  ℕ, zero, suc, ◌+◌, String, Bool, true, false, ◌&&◌, ◌||◌, Option, none, some, List, [], ◌∷◌, ◌++◌,
  ◌==◌, ltb, leb, str_eq, if◌then◌else◌,
}
use message_management_api.Effects.{Io, pure, throw, ◌>>=◌, plain_error}
use message_management_api.Runtime.{Runtime}
use message_management_api.Domain.{
  OutboxEvent, CreateOutboxEventInput, ClaimPublishableOutboxEventsInput,
  MarkPublishedOutboxEventInput, ScheduleOutboxRetryInput, MarkFailedOutboxEventInput,
  OutboxPendingStats, OutboxEventStatus, pending, publishing, published, failed,
}
use message_management_api.Domain.Ports.{OutboxRepositoryPort}
use message_management_api.Persistence.Collection.{Model}
use message_management_api.Persistence.Schemas.{OutboxEventEntity}

abbrev pub OutboxModel : Type 0 → Type 0
OutboxModel W = Model W OutboxEventEntity CreateOutboxEventInput

abbrev pub same_status : OutboxEventStatus → OutboxEventStatus → Bool
same_status pending pending = true
same_status publishing publishing = true
same_status published published = true
same_status failed failed = true
same_status _ _ = false

abbrev pub has_status : OutboxEventStatus → OutboxEventEntity → Bool
has_status s d = same_status s d.status

unfoldable pub map_outbox_event : Runtime → OutboxEventEntity → OutboxEvent
map_outbox_event r d = record {
  id = r.object_id_text d._id;
  event_id = d.event_id;
  event_type = d.event_type;
  event_version = d.event_version;
  topic = d.topic;
  key = d.key;
  payload = d.payload;
  status = d.status;
  attempts = d.attempts;
  next_attempt_at = d.next_attempt_at;
  locked_by = d.locked_by;
  locked_at = d.locked_at;
  last_error = d.last_error;
  created_at = d.created_at;
  published_at = d.published_at;
}

abbrev pub text_is : Option String → String → Bool
text_is none s = false
text_is (some t) s = str_eq t s

-- `$lte` with a date: a document without the field does not match. The lock has expired if
-- `lockedAt <= now - lockTimeoutMs`.
abbrev pub expired_lock : Option ℕ → ℕ → ℕ → Bool
expired_lock none timeout now = false
expired_lock (some t) timeout now = leb (t + timeout) now

unfoldable pub is_claimable : ClaimPublishableOutboxEventsInput → OutboxEventEntity → Bool
is_claimable input d =
    (leb d.next_attempt_at input.now && has_status pending d)
    || (expired_lock d.locked_at input.lock_timeout_ms input.now && has_status publishing d)

unfoldable pub claim_update :
    ClaimPublishableOutboxEventsInput → OutboxEventEntity → OutboxEventEntity
claim_update input d = record d {
  locked_at = some input.now;
  locked_by = some input.locked_by;
  status = publishing;
}

unfoldable pub lock_owner_filter : Runtime → String → String → OutboxEventEntity → Bool
lock_owner_filter r id locked_by d =
    d._id == r.object_id id && text_is d.locked_by locked_by && has_status publishing d

unfoldable pub published_update :
    MarkPublishedOutboxEventInput → OutboxEventEntity → OutboxEventEntity
published_update input d = record d {
  published_at = some input.published_at;
  status = published;
  last_error = none;
  locked_at = none;
  locked_by = none;
}

unfoldable pub retry_update : ScheduleOutboxRetryInput → OutboxEventEntity → OutboxEventEntity
retry_update input d = record d {
  attempts = input.attempts;
  last_error = some input.last_error;
  next_attempt_at = input.next_attempt_at;
  status = pending;
  locked_at = none;
  locked_by = none;
}

unfoldable pub failed_update : MarkFailedOutboxEventInput → OutboxEventEntity → OutboxEventEntity
failed_update input d = record d {
  attempts = input.attempts;
  last_error = some input.last_error;
  next_attempt_at = input.failed_at;
  status = failed;
  locked_at = none;
  locked_by = none;
}

abbrev pub earlier_created : OutboxEventEntity → OutboxEventEntity → Bool
earlier_created a b = ltb a.created_at b.created_at

module _ {W : Type 0} (r : Runtime) (model : OutboxModel W) where
  unfoldable pub create : CreateOutboxEventInput → Io W OutboxEvent
  unfolding map_outbox_event
  create input = do
    created ← model.create input
    elim created [
      | none ↦ throw (plain_error "Outbox insert did not return a document")
      | some d ↦ pure (map_outbox_event r d)
    ]

  -- The rounds that are left, and the events claimed so far.
  unfoldable pub claim_loop :
      ClaimPublishableOutboxEventsInput → ℕ → List OutboxEvent → Io W (List OutboxEvent)
  claim_loop input zero claimed = pure claimed
  claim_loop input (suc n) claimed = do
    event ← model.find_one_and_update (is_claimable input) (claim_update input)
    elim event [
      | none ↦ pure claimed
      | some d ↦ claim_loop input n (claimed ++ map_outbox_event r d ∷ [])
    ]

  unfoldable pub claim_publishable : ClaimPublishableOutboxEventsInput → Io W (List OutboxEvent)
  claim_publishable input = claim_loop input input.batch_size []

  unfoldable pub mark_published : MarkPublishedOutboxEventInput → Io W Bool
  mark_published input = do
    matched ←
        model.update_one (lock_owner_filter r input.id input.locked_by) (published_update input)
    pure (matched == 1)

  unfoldable pub schedule_retry : ScheduleOutboxRetryInput → Io W Bool
  schedule_retry input = do
    matched ← model.update_one (lock_owner_filter r input.id input.locked_by) (retry_update input)
    pure (matched == 1)

  unfoldable pub mark_failed : MarkFailedOutboxEventInput → Io W Bool
  mark_failed input = do
    matched ← model.update_one (lock_owner_filter r input.id input.locked_by) (failed_update input)
    pure (matched == 1)

  abbrev oldest_created : List OutboxEventEntity → Option ℕ
  oldest_created [] = none
  oldest_created (d ∷ ds) = some d.created_at

  -- The two reads are independent of one another.
  unfoldable pub get_pending_stats : Io W OutboxPendingStats
  get_pending_stats = do
    pending_count ← model.count_documents (has_status pending)
    oldest ← model.find (has_status pending) earlier_created (some 1)
    pure (record {
      pending_count = pending_count;
      oldest_pending_created_at = oldest_created oldest;
    })

  -- The repository as the port that the application and the publisher take.
  abbrev pub outbox_repository : OutboxRepositoryPort W
  outbox_repository = record {
    create = create;
    claim_publishable = claim_publishable;
    mark_published = mark_published;
    schedule_retry = schedule_retry;
    mark_failed = mark_failed;
    get_pending_stats = get_pending_stats;
  }
