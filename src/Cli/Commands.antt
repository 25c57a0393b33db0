-- ===== src/Cli/Commands.antt =====
-- apps/cli/src/commands: from the options of a command to the call of its service.
use message_management_api.Prelude.{
  ℕ, ◌+◌, ◌≡◌, ◌⊎◌, ◌≢◌, ◌==◌, String, Bool, true, false, not, ◌&&◌, ◌||◌, Option, none, some, List,
  [], length, or_else, is_some, trim, if◌then◌else◌, arith,
}
use message_management_api.Effects.{Result, ok, err, plain_error}
use message_management_api.Cli.OutboxMaintenance.{RedriveFailedOutboxInput}
use message_management_api.Cli.EsReindex.{EsReindexInput}
use message_management_api.Cli.DlqRedrive.{DlqRedriveInput}

-- `options.dryRun === true || options.confirm !== true`.
abbrev pub is_dry_run : Option Bool → Option Bool → Bool
is_dry_run dry_run confirm = or_else dry_run false || not (or_else confirm false)

pub record OutboxRedriveOptions : Type 0 where
  pub confirm : Option Bool
  pub dry_run : Option Bool
  pub event_ids : Option (List String)
  pub ids : Option (List String)
  pub limit : Option ℕ

abbrev default_limit : Option ℕ → Bool → Option ℕ
default_limit (some n) dry_run = some n
default_limit none true = some 20
default_limit none false = none

-- `run` of outbox-redrive.command.ts up to the call of the service, which is given the time at which
-- the check of the options is done.
unfoldable pub redrive_request : OutboxRedriveOptions → Result (ℕ → RedriveFailedOutboxInput)
redrive_request options =
    let ids = or_else options.ids [] in
    let event_ids = or_else options.event_ids [] in
    let dry_run = is_dry_run options.dry_run options.confirm in
    let limit = default_limit options.limit dry_run in
    if not dry_run && length ids + length event_ids == 0 && not (is_some limit)
    then err (plain_error "Pass --limit, --id, or --event-id with --confirm for outbox:redrive.")
    else ok (λ now. (record {
      dry_run = dry_run;
      event_ids = event_ids;
      ids = ids;
      limit = limit;
      now = now;
    }))

unfoldable pub outbox_redrive : OutboxRedriveOptions → ℕ → Result RedriveFailedOutboxInput
outbox_redrive options now = elim (redrive_request options) [
  | ok request ↦ ok (request now)
  | err e ↦ err e
]

pub record EsReindexOptions : Type 0 where
  pub confirm : Option Bool
  pub dry_run : Option Bool
  pub to : Option String

-- es-reindex.command.ts; `parseTo` trims the option.
unfoldable pub es_reindex : EsReindexOptions → EsReindexInput
es_reindex options = record {
  dry_run = is_dry_run options.dry_run options.confirm;
  target_index = elim options.to [ none ↦ none | some to ↦ some (trim to) ];
}

pub record DlqRedriveOptions : Type 0 where
  pub confirm : Option Bool
  pub dry_run : Option Bool
  pub idle_timeout_ms : Option ℕ
  pub limit : Option ℕ

-- dlq-redrive.command.ts.
unfoldable pub dlq_redrive : DlqRedriveOptions → DlqRedriveInput
dlq_redrive options = record {
  dry_run = is_dry_run options.dry_run options.confirm;
  idle_timeout_ms = or_else options.idle_timeout_ms 5000;
  limit = or_else options.limit 100;
}

-- An outbox redrive that changes anything was confirmed, was not called a dry run, and is bounded:
-- it names events or a limit.
pub outbox_redrive_bounded :
    (options : OutboxRedriveOptions) (now : ℕ) (input : RedriveFailedOutboxInput)
    → outbox_redrive options now ≡ ok input
    → input.dry_run ≡ false
    → (options.confirm ≡ some true)
      × (options.dry_run ≢ some true)
      × ((is_some input.limit ≡ true) ⊎ (input.ids ≢ []) ⊎ (input.event_ids ≢ []))
unfolding outbox_redrive redrive_request
outbox_redrive_bounded options now input h d = ground arith
