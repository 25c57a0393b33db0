-- ===== src/Cli/Output.antt =====
-- apps/cli/src/commands: the whole runs of the four commands, with the lines that they print. The
-- services are parameters, `print` is `console.log`.
use Prim.Native.String.{◌++◌ as append}
use message_management_api.Prelude.{
  ℕ, String, Bool, Option, none, some, List, [], ◌∷◌, or_else, map, if◌then◌else◌,
}
use message_management_api.Effects.{Io, act, ◌>>=◌}
use message_management_api.Runtime.{Runtime}
use message_management_api.Application.ListMessages.{lift}
use message_management_api.Cli.OutboxMaintenance.{
  OutboxInspection, OutboxFailedEventSummary, RedriveFailedOutboxInput, RedriveFailedOutboxResult,
}
use message_management_api.Cli.EsReindex.{EsReindexInput, EsReindexResult}
use message_management_api.Cli.DlqRedrive.{
  DlqRedriveInput, DlqRedriveResult, StopReason, idle_timeout, limit_reached,
}
use message_management_api.Cli.Commands.{
  OutboxRedriveOptions, EsReindexOptions, DlqRedriveOptions, is_dry_run, redrive_request,
  es_reindex, dlq_redrive,
}

abbrev join_with : String → List String → String
join_with separator [] = ""
join_with separator (s ∷ []) = s
join_with separator (s ∷ t ∷ ss) = append s (append separator (join_with separator (t ∷ ss)))

abbrev counted : Runtime → String → ℕ → String
counted r label n = append label (r.decimal n)

abbrev age_text : Runtime → Option ℕ → String
age_text r none = "none"
age_text r (some seconds) = append (r.decimal seconds) "s"

abbrev failed_event_line : Runtime → OutboxFailedEventSummary → String
failed_event_line r e = join_with " " (
    append "  id=" e.id
    ∷ append "eventId=" e.event_id
    ∷ append "key=" e.key
    ∷ counted r "attempts=" e.attempts
    ∷ append "nextAttemptAt=" (r.iso_text e.next_attempt_at)
    ∷ append "lastError=" (or_else e.last_error "none")
    ∷ [])

abbrev failed_event_lines : Runtime → List OutboxFailedEventSummary → List String
failed_event_lines r [] = "Failed events: none" ∷ []
failed_event_lines r (e ∷ es) = "Failed events" ∷ map (failed_event_line r) (e ∷ es)

-- outbox-inspect.command.ts.
unfoldable pub inspection_lines : Runtime → OutboxInspection → List String
inspection_lines r inspection =
    "Outbox status counts"
    ∷ counted r "  pending: " inspection.counts.pending
    ∷ counted r "  publishing: " inspection.counts.publishing
    ∷ counted r "  published: " inspection.counts.published
    ∷ counted r "  failed: " inspection.counts.failed
    ∷ append "Oldest pending age: " (age_text r inspection.oldest_pending_age_seconds)
    ∷ failed_event_lines r inspection.failed_events

abbrev selected_event_line : Runtime → OutboxFailedEventSummary → String
selected_event_line r e = join_with " " (
    append "    id=" e.id
    ∷ append "eventId=" e.event_id
    ∷ append "key=" e.key
    ∷ counted r "attempts=" e.attempts
    ∷ [])

abbrev selected_event_lines : Runtime → List OutboxFailedEventSummary → List String
selected_event_lines r [] = "  selected events: none" ∷ []
selected_event_lines r (e ∷ es) = "  selected events:" ∷ map (selected_event_line r) (e ∷ es)

-- outbox-redrive.command.ts.
unfoldable pub outbox_redrive_lines : Runtime → Bool → RedriveFailedOutboxResult → List String
outbox_redrive_lines r dry_run result =
    (if dry_run then "Outbox redrive dry-run" else "Outbox redrive applied")
    ∷ counted r "  matched failed events: " result.matched_count
    ∷ counted r "  reset to pending: " result.modified_count
    ∷ selected_event_lines r result.events

abbrev target_count_text : Runtime → Option ℕ → String
target_count_text r none = "not created"
target_count_text r (some n) = r.decimal n

-- es-reindex.command.ts.
unfoldable pub es_reindex_lines : Runtime → Bool → EsReindexResult → List String
es_reindex_lines r dry_run result =
    (if dry_run then "Elasticsearch reindex dry-run" else "Elasticsearch reindex applied")
    ∷ append "  source read alias indices: " (join_with ", " result.source_indices)
    ∷ append "  previous write alias indices: " (join_with ", " result.previous_write_indices)
    ∷ append "  target index: " result.target_index
    ∷ counted r "  source count: " result.source_count
    ∷ append "  target count: " (target_count_text r result.target_count)
    ∷ append "  aliases swapped: " (if result.aliases_swapped then "yes" else "no")
    ∷ "  old index retained for rollback: yes"
    ∷ []

abbrev stop_reason_text : StopReason → String
stop_reason_text idle_timeout = "idle-timeout"
stop_reason_text limit_reached = "limit-reached"

-- dlq-redrive.command.ts.
unfoldable pub dlq_redrive_lines : Runtime → Bool → DlqRedriveResult → List String
dlq_redrive_lines r dry_run result =
    (if dry_run then "DLQ redrive dry-run" else "DLQ redrive applied")
    ∷ counted r "  consumed from DLQ: " result.consumed_count
    ∷ counted r "  republished to main topic: " result.republished_count
    ∷ counted r "  committed offsets: " result.committed_count
    ∷ append "  stop reason: " (stop_reason_text result.stop_reason)
    ∷ []

module _ {W : Type 0} (r : Runtime) (print : String → W → W) where
  abbrev print_all : List String → W → W
  print_all [] w = w
  print_all (line ∷ lines) w = print_all lines (print line w)

  -- `inspect` is given the limit and the time.
  unfoldable pub run_outbox_inspect :
      (ℕ → ℕ → Io W OutboxInspection) → Io W ℕ → Option ℕ → Io W (Unit {0})
  unfolding inspection_lines
  run_outbox_inspect inspect new_date failed_limit = do
    now ← new_date
    inspection ← inspect (or_else failed_limit 10) now
    act (print_all (inspection_lines r inspection))

  unfoldable pub run_outbox_redrive :
      (RedriveFailedOutboxInput → Io W RedriveFailedOutboxResult)
      → Io W ℕ
      → OutboxRedriveOptions
      → Io W (Unit {0})
  unfolding outbox_redrive_lines
  run_outbox_redrive redrive_failed new_date options = do
    request ← lift (redrive_request options)
    now ← new_date
    result ← redrive_failed (request now)
    act (print_all (outbox_redrive_lines r (is_dry_run options.dry_run options.confirm) result))

  unfoldable pub run_es_reindex :
      (EsReindexInput → Io W EsReindexResult) → EsReindexOptions → Io W (Unit {0})
  unfolding es_reindex_lines
  run_es_reindex reindex options = do
    result ← reindex (es_reindex options)
    act (print_all (es_reindex_lines r (is_dry_run options.dry_run options.confirm) result))

  unfoldable pub run_dlq_redrive :
      (DlqRedriveInput → Io W DlqRedriveResult) → DlqRedriveOptions → Io W (Unit {0})
  unfolding dlq_redrive_lines
  run_dlq_redrive redrive options = do
    result ← redrive (dlq_redrive options)
    act (print_all (dlq_redrive_lines r (is_dry_run options.dry_run options.confirm) result))
