-- ===== src/Observability/Metrics.antt =====
-- libs/observability/src/metrics/metrics.service.ts: the metrics that it declares, and the calls that
-- record. The registry of prom-client is a list of samples; histograms keep the number of
-- observations.
pub mod Totals
pub mod Counts
use message_management_api.Prelude.{
  ℕ, ◌+◌, String, Bool, true, false, ◌&&◌, List, [], ◌∷◌, str_eq, if◌then◌else◌,
}

pub data MetricKind : Type 0 where
  counter gauge histogram : MetricKind

-- The bounds of a histogram's buckets are given in milliseconds.
pub record MetricDefinition : Type 0 where
  pub kind : MetricKind
  pub name : String
  pub label_names : List String
  pub buckets : List ℕ

abbrev request_buckets : List ℕ
request_buckets = 5 ∷ 10 ∷ 25 ∷ 50 ∷ 100 ∷ 250 ∷ 500 ∷ 1000 ∷ 2500 ∷ 5000 ∷ []

abbrev long_buckets : List ℕ
long_buckets = 5 ∷ 10 ∷ 25 ∷ 50 ∷ 100 ∷ 250 ∷ 500 ∷ 1000 ∷ 2500 ∷ 5000 ∷ 10_000 ∷ []

abbrev define : MetricKind → String → List String → List ℕ → MetricDefinition
define kind name label_names buckets = record {
  kind = kind;
  name = name;
  label_names = label_names;
  buckets = buckets;
}

-- What the constructor registers, besides the default metrics of prom-client.
abbrev pub metric_definitions : List MetricDefinition
metric_definitions =
    define counter "message_management_http_requests_total"
      ("method" ∷ "route" ∷ "status_code" ∷ []) []
    ∷ define histogram "message_management_http_request_duration_seconds"
        ("method" ∷ "route" ∷ "status_code" ∷ []) request_buckets
    ∷ define counter "message_management_outbox_events_published_total"
        ("topic" ∷ "event_type" ∷ []) []
    ∷ define counter "message_management_outbox_events_failed_total" ("topic" ∷ "event_type" ∷ [])
        []
    ∷ define gauge "message_management_outbox_pending_count" [] []
    ∷ define gauge "message_management_outbox_oldest_pending_age_seconds" [] []
    ∷ define histogram "message_management_outbox_publish_duration_seconds"
        ("topic" ∷ "event_type" ∷ []) long_buckets
    ∷ define counter "message_management_search_indexer_messages_indexed_total" ("topic" ∷ []) []
    ∷ define counter "message_management_search_indexer_messages_dlq_total"
        ("topic" ∷ "reason" ∷ []) []
    ∷ define counter "message_management_search_indexer_messages_skipped_total"
        ("topic" ∷ "reason" ∷ []) []
    ∷ define histogram "message_management_search_indexer_index_duration_seconds" ("topic" ∷ [])
        long_buckets
    ∷ []

-- The object of labels, in the order in which the metric declares them.
abbrev pub Labels : Type 0
Labels = List (String × String)

pub record Sample : Type 0 where
  pub name : String
  pub labels : Labels
  pub total : ℕ

abbrev pub same_labels : Labels → Labels → Bool
same_labels [] [] = true
same_labels ((k, v) ∷ as') ((l, w) ∷ bs) = str_eq k l && str_eq v w && same_labels as' bs
same_labels _ _ = false

abbrev pub is_series : String → Labels → Sample → Bool
is_series name labels s = str_eq s.name name && same_labels s.labels labels

-- `counter.inc(labels)`, and `histogram.observe(labels, …)` on the number of observations.
unfoldable pub increment : String → Labels → List Sample → List Sample
increment name labels [] = record { name = name; labels = labels; total = 1 } ∷ []
increment name labels (s ∷ ss) =
    if is_series name labels s
    then record s { total = s.total + 1 } ∷ ss
    else s ∷ increment name labels ss

-- `gauge.set(value)`.
unfoldable pub set_gauge : String → ℕ → List Sample → List Sample
set_gauge name value [] = record { name = name; labels = []; total = value } ∷ []
set_gauge name value (s ∷ ss) =
    if is_series name [] s then record s { total = value } ∷ ss else s ∷ set_gauge name value ss

unfoldable pub total_of : String → Labels → List Sample → ℕ
total_of name labels [] = 0
total_of name labels (s ∷ ss) = if is_series name labels s then s.total else total_of name labels ss

abbrev pub record_outbox_published : String → String → List Sample → List Sample
record_outbox_published topic event_type =
    increment "message_management_outbox_events_published_total"
      (("topic", topic) ∷ ("event_type", event_type) ∷ [])

abbrev pub record_outbox_failed : String → String → List Sample → List Sample
record_outbox_failed topic event_type =
    increment "message_management_outbox_events_failed_total"
      (("topic", topic) ∷ ("event_type", event_type) ∷ [])

abbrev pub record_outbox_publish_duration : String → String → List Sample → List Sample
record_outbox_publish_duration topic event_type =
    increment "message_management_outbox_publish_duration_seconds"
      (("topic", topic) ∷ ("event_type", event_type) ∷ [])

abbrev pub set_outbox_pending_stats : ℕ → ℕ → List Sample → List Sample
set_outbox_pending_stats pending_count oldest_age ss =
    set_gauge "message_management_outbox_oldest_pending_age_seconds" oldest_age
      (set_gauge "message_management_outbox_pending_count" pending_count ss)

abbrev pub record_search_indexer_indexed : String → List Sample → List Sample
record_search_indexer_indexed topic =
    increment "message_management_search_indexer_messages_indexed_total" (("topic", topic) ∷ [])

abbrev pub record_search_indexer_dlq : String → String → List Sample → List Sample
record_search_indexer_dlq topic reason =
    increment "message_management_search_indexer_messages_dlq_total"
      (("topic", topic) ∷ ("reason", reason) ∷ [])

abbrev pub record_search_indexer_skipped : String → String → List Sample → List Sample
record_search_indexer_skipped topic reason =
    increment "message_management_search_indexer_messages_skipped_total"
      (("topic", topic) ∷ ("reason", reason) ∷ [])

abbrev pub record_search_indexer_index_duration : String → List Sample → List Sample
record_search_indexer_index_duration topic =
    increment "message_management_search_indexer_index_duration_seconds" (("topic", topic) ∷ [])

-- The labels are the caller's.
abbrev pub record_http_request : Labels → List Sample → List Sample
record_http_request labels ss =
    increment "message_management_http_request_duration_seconds" labels
      (increment "message_management_http_requests_total" labels ss)
