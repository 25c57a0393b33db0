-- ===== src/Cli/OutboxMaintenance.antt =====
-- apps/cli/src/services/outbox-maintenance.service.ts.
pub mod Redrive
pub mod Selection
use message_management_api.Prelude.{
  ℕ, ◌-◌, ◌/◌, String, Bool, true, false, ◌&&◌, ◌||◌, Option, none, some, List, [], ◌∷◌, length,
  map, any, ltb, ◌==◌, contains_text, if◌then◌else◌,
}
use Prim.Native.String.{◌++◌ as append}
use message_management_api.Effects.{
  Io, pure, throw, ◌>>=◌, ◌>>◌, plain_error, Result, ok, err, Exception,
}
use message_management_api.Runtime.{Runtime}
use message_management_api.Domain.{pending, publishing, published, failed}
use message_management_api.Persistence.Collection.{Model}
use message_management_api.Persistence.Schemas.{OutboxEventEntity}
use message_management_api.Persistence.OutboxRepository.{OutboxModel, has_status, earlier_created}
use message_management_api.Application.ListMessages.{lift}

pub record OutboxCounts : Type 0 where
  pub pending : ℕ
  pub publishing : ℕ
  pub published : ℕ
  pub failed : ℕ

pub record OutboxFailedEventSummary : Type 0 where
  pub id : String
  pub event_id : String
  pub key : String
  pub attempts : ℕ
  pub next_attempt_at : ℕ
  pub created_at : ℕ
  pub last_error : Option String

pub record OutboxInspection : Type 0 where
  pub counts : OutboxCounts
  pub oldest_pending_age_seconds : Option ℕ
  pub failed_events : List OutboxFailedEventSummary

pub record RedriveFailedOutboxInput : Type 0 where
  pub dry_run : Bool
  pub event_ids : List String
  pub ids : List String
  pub limit : Option ℕ
  pub now : ℕ

pub record RedriveFailedOutboxResult : Type 0 where
  pub matched_count : ℕ
  pub modified_count : ℕ
  pub events : List OutboxFailedEventSummary

unfoldable pub summary_of : Runtime → OutboxEventEntity → OutboxFailedEventSummary
summary_of r d = record {
  id = r.object_id_text d._id;
  event_id = d.event_id;
  key = d.key;
  attempts = d.attempts;
  next_attempt_at = d.next_attempt_at;
  created_at = d.created_at;
  last_error = d.last_error;
}

abbrev pub contains_id : ℕ → List ℕ → Bool
contains_id i [] = false
contains_id i (j ∷ js) = i == j || contains_id i js

-- The ObjectIds of the given texts, or the error for the first that is none.
unfoldable pub object_ids : Runtime → List String → Result (List ℕ)
object_ids r [] = ok []
object_ids r (id ∷ ids) =
    let rest = with_id (r.object_id id) (object_ids r ids) in
    if r.object_id_is_valid id then rest else err (plain_error (append "Invalid outbox _id: " id))
  where
    with_id : ℕ → Result (List ℕ) → Result (List ℕ)
    with_id i (ok is) = ok (i ∷ is)
    with_id i (err e) = err e

-- The selectors that the lists add, joined by `$or`; with none of them every document is selected.
abbrev pub selected_by : List ℕ → List String → OutboxEventEntity → Bool
selected_by [] [] d = true
selected_by (i ∷ is) [] d = contains_id d._id (i ∷ is)
selected_by [] (e ∷ es) d = contains_text d.event_id (e ∷ es)
selected_by (i ∷ is) (e ∷ es) d = contains_id d._id (i ∷ is) || contains_text d.event_id (e ∷ es)

abbrev selection : List String → Result (List ℕ) → Result (OutboxEventEntity → Bool)
selection event_ids (err e) = err e
selection event_ids (ok ids) = ok (selected_by ids event_ids)

unfoldable pub build_failed_selection_filter :
    Runtime → RedriveFailedOutboxInput → Result (OutboxEventEntity → Bool)
unfolding object_ids
build_failed_selection_filter r input = selection input.event_ids (object_ids r input.ids)

-- `sort({ nextAttemptAt: 1, _id: 1 })`.
abbrev pub failed_before : OutboxEventEntity → OutboxEventEntity → Bool
failed_before a b =
    ltb a.next_attempt_at b.next_attempt_at
    || (a.next_attempt_at == b.next_attempt_at && ltb a._id b._id)

unfoldable pub redrive_update : ℕ → OutboxEventEntity → OutboxEventEntity
redrive_update now d = record d {
  attempts = 0;
  next_attempt_at = now;
  status = pending;
  last_error = none;
  locked_at = none;
  locked_by = none;
  published_at = none;
}

-- The filter of the update: `_id` is among the selected ones, and the status is still `failed`.
abbrev pub still_failed : Runtime → List OutboxFailedEventSummary → OutboxEventEntity → Bool
still_failed r events d =
    contains_id d._id (map (λ e. r.object_id e.id) events) && has_status failed d

abbrev oldest_age : ℕ → List OutboxEventEntity → Option ℕ
oldest_age now [] = none
oldest_age now (d ∷ ds) = some ((now - d.created_at) / 1000)

module _ {W : Type 0} (r : Runtime) (model : OutboxModel W) where
  unfoldable pub find_failed_events :
      (OutboxEventEntity → Bool) → Option ℕ → Io W (List OutboxFailedEventSummary)
  unfolding summary_of
  find_failed_events filter limit = do
    documents ← model.find (λ d. filter d && has_status failed d) failed_before limit
    pure (map (summary_of r) documents)

  unfoldable pub count_by_status : Io W OutboxCounts
  count_by_status = do
    pending_count ← model.count_documents (has_status pending)
    publishing_count ← model.count_documents (has_status publishing)
    published_count ← model.count_documents (has_status published)
    failed_count ← model.count_documents (has_status failed)
    pure (record {
      pending = pending_count;
      publishing = publishing_count;
      published = published_count;
      failed = failed_count;
    })

  -- The reads of `Promise.all` are independent of one another.
  unfoldable pub inspect : ℕ → ℕ → Io W OutboxInspection
  unfolding find_failed_events count_by_status
  inspect failed_limit now = do
    counts ← count_by_status
    oldest ← model.find (has_status pending) earlier_created (some 1)
    failed_events ← find_failed_events (λ d. true) (some failed_limit)
    pure (record {
      counts = counts;
      oldest_pending_age_seconds = oldest_age now oldest;
      failed_events = failed_events;
    })

  apply_redrive :
      RedriveFailedOutboxInput → List OutboxFailedEventSummary → Io W RedriveFailedOutboxResult
  apply_redrive input events = do
    modified ← model.update_many (still_failed r events) (redrive_update input.now)
    pure (record { matched_count = length events; modified_count = modified; events = events })

  unfoldable pub redrive_failed : RedriveFailedOutboxInput → Io W RedriveFailedOutboxResult
  unfolding find_failed_events apply_redrive
  redrive_failed input = do
    filter ← lift (build_failed_selection_filter r input)
    events ← find_failed_events filter input.limit
    if length events == 0 || input.dry_run
        then pure (record { matched_count = length events; modified_count = 0; events = events })
        else apply_redrive input events
