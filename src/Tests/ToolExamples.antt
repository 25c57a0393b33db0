-- ===== src/Tests/ToolExamples.antt =====
-- The theorems on the API's edges, the metrics and the command-line tools at concrete inputs.
use message_management_api.Prelude.{
  inl, if◌then◌else◌, Bool, All, ℕ, ◌≡◌, ◌≢◌, ◌⊎◌, ◌↔◌, refl, true, false, String, none, some, List,
  [], ◌∷◌, is_some,
}
use message_management_api.Json.{null}
use message_management_api.Effects.{ok_injective, ok, err, Exception, value}
use message_management_api.Domain.Ports.{MessageSearchPort}
use message_management_api.Application.SearchMessages
use message_management_api.Api.Auth.{ApiKeyConfig, Crypto, can_activate, unauthorized}
use message_management_api.Api.Auth.Admission.{IsFirst, can_activate_iff}
use message_management_api.Api.ErrorFilter.{catch}
use message_management_api.Api.ErrorFilter.Hiding.{catch_hides}
use message_management_api.Search.EsMessageSearch.{messages_read_alias, messages_write_alias}
use message_management_api.Cli.EsReindex.{build_alias_swap_actions}
use message_management_api.Cli.EsReindex.Aliases.{
  AliasTable, apply_actions, indices_of, build_alias_swap_actions-swaps,
}
use message_management_api.Cli.DlqRedrive.Rehearsal.{KeepsCalls, ReportsNothing, redrive-rehearses}
use message_management_api.Cli.DlqRedrive.{
  Connections, redrive, DlqRedriveInput, DeadLetter, Clients, no_progress, Finish, Progress,
  delivers, idles, waiting, consume_until_done,
}
use message_management_api.Cli.DlqRedrive.Calls.{Call, sends, commits, IsKafka, offset_after}
use message_management_api.Cli.Commands.{
  OutboxRedriveOptions, outbox_redrive, redrive_request, outbox_redrive_bounded,
}
use message_management_api.Cli.OutboxMaintenance.{RedriveFailedOutboxInput}
use message_management_api.Search.IndexManager.{AliasAction, remove, add, Indices, on_module_init}
use message_management_api.Search.IndexManager.Bootstrap.{
  IsCluster, IsReady, Added, on_module_init-IsReady,
}
use message_management_api.Tests.Data.{cursors, timeout}

abbrev crypto : Crypto
crypto = record { sha256 = λ s. 1 ∷ []; from_hex = λ s. 1 ∷ [] }

abbrev keys : List ApiKeyConfig
keys = record { name = "ops"; hash = "01" } ∷ []

can_activate_iff_example :
    ((name : String)
      → (can_activate crypto keys none (some "k") ≡ ok (some name))
        ↔ ((key : String) × (some "k" ≡ some key) × (key ≢ "") × IsFirst crypto keys key name))
    × (((name : String) × (can_activate crypto keys none (some "k") ≡ ok (some name)))
        ⊎ (can_activate crypto keys none (some "k") ≡ err (unauthorized "Invalid API key")))
can_activate_iff_example = can_activate_iff crypto keys (some "k")

catch_hides_example :
    (catch cursors none none "/" 7 timeout ≡ catch cursors none none "/" 7 (value null))
    × ((catch cursors none none "/" 7 timeout).body.status_code ≡ 500)
    × ((catch cursors none none "/" 7 timeout).logged ≡ true)
catch_hides_example = catch_hides cursors none none "/" 7 timeout (value null) (λ h. h) (λ h. h)

abbrev search : MessageSearchPort ℕ
search = record { index_message = λ d n. (ok tt, n); search_messages = λ q n. (err timeout, n) }

abbrev question : SearchMessages.SearchMessagesCommand
question = record { conversation_id = "c"; q = "hello"; page = none; limit = none }

unavailable : Exception
unavailable = Exception.search_unavailable "Search is temporarily unavailable"

abbrev aliases : AliasTable
aliases =
    (messages_read_alias, "messages-v1")
    ∷ (messages_write_alias, "messages-v1")
    ∷ ("logs", "l")
    ∷ []

abbrev swapped : AliasTable
swapped =
    apply_actions
      (build_alias_swap_actions (indices_of messages_read_alias aliases)
        (indices_of messages_write_alias aliases) "messages-v2")
      aliases

build_alias_swap_actions-swaps_example :
    (indices_of messages_read_alias swapped ≡ "messages-v2" ∷ [])
    × (indices_of messages_write_alias swapped ≡ "messages-v2" ∷ [])
    × (indices_of "logs" swapped ≡ indices_of "logs" aliases)
build_alias_swap_actions-swaps_example =
    build_alias_swap_actions-swaps aliases "messages-v2" "logs" refl refl

abbrev letter : DeadLetter
letter = record { topic = "d"; partition = 0; offset = 4; key = none; value = none }

-- A Kafka that keeps the calls it got, and would commit by itself if it were told to.
abbrev clients : Clients (List Call)
clients = record {
  send = λ m calls. (ok tt, sends m ∷ calls);
  commit_offsets = λ o calls. (ok tt, commits o ∷ calls);
  stop = λ calls. (ok tt, calls);
  after_message =
      λ options m calls. if options.auto_commit then commits (offset_after m) ∷ calls else calls;
}

abbrev calls_of : List Call → List Call
calls_of calls = calls

clients-IsKafka : IsKafka clients calls_of
clients-IsKafka = record {
  send = λ m w. inl (refl, refl);
  commit_offsets = λ o w. inl (refl, refl);
  stop = λ w. refl;
  after_message = λ options m w h. rw h refl;
}

abbrev limited_to_one : DlqRedriveInput
limited_to_one = record { dry_run = false; idle_timeout_ms = 5000; limit = 1 }

abbrev redriven : (Finish × Progress) × List Call
redriven =
    consume_until_done clients limited_to_one (delivers letter ∷ delivers letter ∷ []) waiting
      no_progress []

abbrev connections : Connections (List Call)
connections = record {
  connect_consumer = λ calls. (ok tt, calls);
  connect_producer = λ calls. (ok tt, calls);
  subscribe = λ topic calls. (ok tt, calls);
  disconnect_consumer = λ calls. (ok tt, calls);
  disconnect_producer = λ calls. (ok tt, calls);
}

connections-KeepsCalls : KeepsCalls connections calls_of
connections-KeepsCalls = record {
  connect_consumer = λ w. refl;
  connect_producer = λ w. refl;
  subscribe = λ topic w. refl;
  disconnect_consumer = λ w. refl;
  disconnect_producer = λ w. refl;
}

abbrev rehearsal : DlqRedriveInput
rehearsal = record { dry_run = true; idle_timeout_ms = 5000; limit = 10 }

redrive-rehearses_example :
    ((redrive connections clients rehearsal (delivers letter ∷ idles ∷ []) []).1 ≡ [])
    × ReportsNothing
        (delivers letter ∷ idles ∷ [])
        (redrive connections clients rehearsal (delivers letter ∷ idles ∷ []) []).0
redrive-rehearses_example =
    redrive-rehearses connections clients rehearsal calls_of clients-IsKafka connections-KeepsCalls
      refl (delivers letter ∷ idles ∷ []) []

abbrev confirmed : OutboxRedriveOptions
confirmed = record {
  confirm = some true;
  dry_run = none;
  event_ids = none;
  ids = none;
  limit = some 5;
}

abbrev asked : RedriveFailedOutboxInput
asked = record { dry_run = false; event_ids = []; ids = []; limit = some 5; now = 30 }

accepted : outbox_redrive confirmed 30 ≡ ok asked
unfolding outbox_redrive redrive_request
accepted = refl

outbox_redrive_bounded_example :
    (some true ≡ some true)
    × (confirmed.dry_run ≢ some true)
    × ((is_some asked.limit ≡ true) ⊎ (asked.ids ≢ []) ⊎ (asked.event_ids ≢ []))
outbox_redrive_bounded_example = outbox_redrive_bounded confirmed 30 asked accepted refl

-- A cluster that starts empty: whether the index is there, and whether the aliases are.
abbrev Cluster : Type 0
Cluster = Bool × Bool

abbrev index_there : Cluster → Bool
index_there w = w.0

abbrev alias_there : String → Cluster → Bool
alias_there alias w = w.1

abbrev cluster : Indices Cluster
cluster = record {
  exists = λ index w. (ok w.0, w);
  create = λ index w. (ok tt, (true, w.1));
  exists_alias = λ alias w. (ok w.1, w);
  update_aliases = λ actions w. (ok tt, (w.0, true));
}

update_aliases-Added :
    (index : Bool) (actions : List AliasAction)
    → All (Added index_there alias_there (index, true)) actions
update_aliases-Added index [] = tt
update_aliases-Added index (remove alias old ∷ actions) = (tt, update_aliases-Added index actions)
update_aliases-Added index (add alias new write ∷ actions) =
    (refl, update_aliases-Added index actions)

cluster-IsCluster : IsCluster index_there alias_there cluster
cluster-IsCluster = record {
  exists = λ w. ((λ h. h, λ alias h. h), λ h. ok_injective h);
  create = λ w. ((λ h. refl, λ alias h. h), λ h. refl);
  conflict = λ w e h c. refl;
  exists_alias = λ alias w. ((λ h. h, λ other h. h), λ h. ok_injective h);
  update_aliases = λ actions w. ((λ h. h, λ alias h. refl), λ h. update_aliases-Added w.0 actions);
}

starts : (on_module_init cluster "search-indexer" (λ e w. w) (false, false)).0 ≡ ok tt
unfolding on_module_init
starts = refl

on_module_init-IsReady_example :
    IsReady index_there alias_there
      (on_module_init cluster "search-indexer" (λ e w. w) (false, false)).1
on_module_init-IsReady_example =
    on_module_init-IsReady index_there alias_there cluster cluster-IsCluster "search-indexer"
      (λ e w. w) (false, false) refl starts
