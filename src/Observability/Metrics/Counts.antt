-- ===== src/Observability/Metrics/Counts.antt =====
-- What the counters of libs/observability/src/metrics/metrics.service.ts say after any recordings.
use message_management_api.Prelude.{
  ℕ, ◌+◌, ◌≡◌, String, Bool, false, ◌&&◌, List, [], ◌∷◌, str_eq, if◌then◌else◌,
}
use message_management_api.Observability.Metrics.{
  Labels, Sample, same_labels, total_of, record_http_request, record_outbox_published,
  record_outbox_failed, record_outbox_publish_duration, set_outbox_pending_stats,
  record_search_indexer_indexed, record_search_indexer_dlq, record_search_indexer_skipped,
  record_search_indexer_index_duration,
}
use message_management_api.Observability.Metrics.Totals.{same_series}

-- The calls of the service that record something, with their arguments.
pub data Recording : Type 0 where
  http_request : Labels → Recording
  outbox_published : String → String → Recording
  outbox_failed : String → String → Recording
  outbox_publish_duration : String → String → Recording
  outbox_pending_stats : ℕ → ℕ → Recording
  search_indexer_indexed : String → Recording
  search_indexer_dlq : String → String → Recording
  search_indexer_skipped : String → String → Recording
  search_indexer_index_duration : String → Recording

abbrev pub recorded : Recording → List Sample → List Sample
recorded (http_request labels) = record_http_request labels
recorded (outbox_published topic event_type) = record_outbox_published topic event_type
recorded (outbox_failed topic event_type) = record_outbox_failed topic event_type
recorded (outbox_publish_duration topic event_type) =
    record_outbox_publish_duration topic event_type
recorded (outbox_pending_stats pending age) = set_outbox_pending_stats pending age
recorded (search_indexer_indexed topic) = record_search_indexer_indexed topic
recorded (search_indexer_dlq topic reason) = record_search_indexer_dlq topic reason
recorded (search_indexer_skipped topic reason) = record_search_indexer_skipped topic reason
recorded (search_indexer_index_duration topic) = record_search_indexer_index_duration topic

abbrev pub all_recorded : List Recording → List Sample → List Sample
all_recorded [] ss = ss
all_recorded (x ∷ xs) ss = all_recorded xs (recorded x ss)

-- How many of the recordings pass a test.
abbrev pub count : (Recording → Bool) → List Recording → ℕ
count p [] = 0
count p (x ∷ xs) = (if p x then 1 else 0) + count p xs

abbrev pub of_published : String → String → Recording → Bool
of_published t e (outbox_published topic event_type) = str_eq topic t && str_eq event_type e
of_published t e _ = false

abbrev pub of_failed : String → String → Recording → Bool
of_failed t e (outbox_failed topic event_type) = str_eq topic t && str_eq event_type e
of_failed t e _ = false

abbrev pub of_indexed : String → Recording → Bool
of_indexed t (search_indexer_indexed topic) = str_eq topic t
of_indexed t _ = false

abbrev pub of_dlq : String → String → Recording → Bool
of_dlq t e (search_indexer_dlq topic reason) = str_eq topic t && str_eq reason e
of_dlq t e _ = false

abbrev pub of_skipped : String → String → Recording → Bool
of_skipped t e (search_indexer_skipped topic reason) = str_eq topic t && str_eq reason e
of_skipped t e _ = false

abbrev pub of_request : Labels → Recording → Bool
of_request l (http_request labels) = same_labels labels l
of_request l _ = false

abbrev one : String → Labels → String → Labels → ℕ
one name labels name' labels' = if same_series name labels name' labels' then 1 else 0

-- A counter or a histogram; the gauges have other names.
abbrev IsCounter : String → Type 0
IsCounter name =
    (str_eq "message_management_outbox_oldest_pending_age_seconds" name ≡ false)
    × (str_eq "message_management_outbox_pending_count" name ≡ false)

-- How much a call adds to the total of a series.
abbrev adds : String → Labels → Recording → ℕ
adds name labels (http_request l) =
    one "message_management_http_requests_total" l name labels
    + one "message_management_http_request_duration_seconds" l name labels
adds name labels (outbox_pending_stats pending age) = 0
adds name labels (outbox_published topic event_type) =
    one "message_management_outbox_events_published_total"
      (("topic", topic) ∷ ("event_type", event_type) ∷ []) name labels
adds name labels (outbox_failed topic event_type) =
    one "message_management_outbox_events_failed_total"
      (("topic", topic) ∷ ("event_type", event_type) ∷ []) name labels
adds name labels (outbox_publish_duration topic event_type) =
    one "message_management_outbox_publish_duration_seconds"
      (("topic", topic) ∷ ("event_type", event_type) ∷ []) name labels
adds name labels (search_indexer_indexed topic) =
    one "message_management_search_indexer_messages_indexed_total" (("topic", topic) ∷ []) name
      labels
adds name labels (search_indexer_dlq topic reason) =
    one "message_management_search_indexer_messages_dlq_total"
      (("topic", topic) ∷ ("reason", reason) ∷ []) name labels
adds name labels (search_indexer_skipped topic reason) =
    one "message_management_search_indexer_messages_skipped_total"
      (("topic", topic) ∷ ("reason", reason) ∷ []) name labels
adds name labels (search_indexer_index_duration topic) =
    one "message_management_search_indexer_index_duration_seconds" (("topic", topic) ∷ []) name
      labels

-- A test that the calls pass which add one to a series, the others adding none.
abbrev Tests : String → Labels → (Recording → Bool) → Type 0
Tests name labels p = (x : Recording) → adds name labels x ≡ (if p x then 1 else 0)

-- The total of a series after recordings, from none.
abbrev pub total_after : String → Labels → List Recording → ℕ
total_after name labels xs = total_of name labels (all_recorded xs [])
