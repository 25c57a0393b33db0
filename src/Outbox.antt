-- ===== src/Outbox.antt =====
-- The outbox as the processes share it: the documents of the collection under the calls that the
-- publishers, the API, the CLI and MongoDB's expiry make, in any order. A call of the repository
-- or of the CLI is atomic, since it is one call of MongoDB (a batch of claims is several).
pub mod Lifecycle
pub mod Leases
pub mod Transitions
pub mod Refinement
pub mod Acknowledgements
pub mod Runs
use message_management_api.Prelude.{
  ℕ, ◌+◌, String, Bool, true, false, not, ◌&&◌, Option, none, some, List, [], ◌∷◌, filter, leb, ltb,
  map, if◌then◌else◌, is_some,
}
use message_management_api.Runtime.{Runtime}
use message_management_api.Domain.{
  ClaimPublishableOutboxEventsInput, MarkPublishedOutboxEventInput, ScheduleOutboxRetryInput,
  MarkFailedOutboxEventInput, CreateOutboxEventInput, pending, published,
}
use message_management_api.Persistence.Collection.Updates.{update_first, update_all, insert_by}
use message_management_api.Persistence.Schemas.{OutboxEventEntity}
use message_management_api.Persistence.OutboxRepository.{
  has_status, is_claimable, claim_update, lock_owner_filter, published_update, retry_update,
  failed_update,
}
use message_management_api.Cli.OutboxMaintenance.{
  OutboxFailedEventSummary, still_failed, redrive_update,
}

-- The document that an insert writes, with the `_id` that the driver chose.
abbrev pub new_document : ℕ → CreateOutboxEventInput → OutboxEventEntity
new_document id input = record {
  _id = id;
  event_id = input.event_id;
  event_type = input.event_type;
  event_version = input.event_version;
  topic = input.topic;
  key = input.key;
  payload = input.payload;
  status = pending;
  attempts = 0;
  next_attempt_at = input.next_attempt_at;
  locked_by = none;
  locked_at = none;
  last_error = none;
  created_at = input.created_at;
  published_at = none;
}

pub data Action : Type 0 where
  creates : ℕ → CreateOutboxEventInput → Action
  claims : ClaimPublishableOutboxEventsInput → Action
  publishes : MarkPublishedOutboxEventInput → Action
  retries : ScheduleOutboxRetryInput → Action
  fails : MarkFailedOutboxEventInput → Action
  redrives : List OutboxFailedEventSummary → ℕ → Action
  -- The TTL index removes published documents of a certain age; the argument is the cut-off.
  expires : ℕ → Action

abbrev pub by_id : OutboxEventEntity → OutboxEventEntity → Bool
by_id a b = ltb a._id b._id

abbrev pub published_before : ℕ → Option ℕ → Bool
published_before cutoff none = false
published_before cutoff (some t) = leb t cutoff

abbrev pub expires_now : ℕ → OutboxEventEntity → Bool
expires_now cutoff d = published_before cutoff d.published_at && has_status published d

unfoldable pub apply : Runtime → Action → List OutboxEventEntity → List OutboxEventEntity
apply r (creates id input) ds = insert_by by_id (new_document id input) ds
apply r (claims input) ds = update_first (is_claimable input) (claim_update input) ds
apply r (publishes input) ds =
    update_first (lock_owner_filter r input.id input.locked_by) (published_update input) ds
apply r (retries input) ds =
    update_first (lock_owner_filter r input.id input.locked_by) (retry_update input) ds
apply r (fails input) ds =
    update_first (lock_owner_filter r input.id input.locked_by) (failed_update input) ds
apply r (redrives events now) ds = update_all (still_failed r events) (redrive_update now) ds
apply r (expires cutoff) ds = filter (λ d. not (expires_now cutoff d)) ds

unfoldable pub run : Runtime → List Action → List OutboxEventEntity → List OutboxEventEntity
unfolding apply
run r [] ds = ds
run r (a ∷ as') ds = run r as' (apply r a ds)
