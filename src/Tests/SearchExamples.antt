-- ===== src/Tests/SearchExamples.antt =====
-- The theorems on searches and on reindexing at concrete inputs.
use message_management_api.Prelude.{
  ℕ, ◌≡◌, refl, inl, false, String, Option, none, some, List, [], ◌∷◌, length, zero, suc,
  characters, ap, map,
}
use message_management_api.Prelude.Text.{trim}
use message_management_api.Json.{Number, natural, str}
use message_management_api.Effects.{ok}
use message_management_api.Runtime.{Runtime}
use message_management_api.Domain.{SearchMessagesQuery}
use message_management_api.Domain.{Message}
use message_management_api.Search.EsMessageSearch.{
  EsSearchResponse, EsTotal, get_total_hits, total_pages, search_result, messages_read_alias,
  messages_write_alias,
}
use message_management_api.Api.Validation.{SearchMessagesQueryDto, validate_search_messages}
use message_management_api.Api.Controllers.{map_search_messages_response}
use message_management_api.Api.Controllers.Found.{
  hit_on, found_response, map_search_messages_response-hits,
}
use message_management_api.Api.Controllers.Window.{IsWithinWindow, validate_search_messages-window}
use message_management_api.Cli.EsReindex.{EsClient, EsReindexInput, reindex}
use message_management_api.Cli.EsReindex.Aliases.{AliasTable, apply_actions, indices_of}
use message_management_api.Cli.EsReindex.Swap.{IsClient, IsOutcome, reindex-IsOutcome}
use message_management_api.Tests.Data.{cursors, message}

abbrev unary : ℕ → String
unary zero = ""
unary (suc n) = String.◌∷◌ "a" (unary n)

abbrev dated : Runtime
dated = record cursors { iso_text = unary; date_of = λ s. some (length (characters s)) }

dates_read_back : (n : ℕ) → some (length (characters (unary n))) ≡ some n
dates_read_back zero = refl
dates_read_back (suc n) =
    ap (λ o. elim o [ none ↦ none | some m ↦ some (suc m) ]) (dates_read_back n)

abbrev question : SearchMessagesQuery
question = record { conversation_id = "c"; q = "hello"; page = 3; limit = 2 }

abbrev answer : EsSearchResponse
answer = record { total = EsTotal.value 5; hits = [] }

abbrev found : List (Option Number × Message)
found = (some (natural 2), message none) ∷ (none, message none) ∷ []

map_search_messages_response-hits_example :
    map_search_messages_response dated (
      search_result dated question
        (record { total = EsTotal.value 5; hits = map (hit_on dated) found }))
    ≡ ok (record {
      messages = map (found_response dated) found;
      pagination = record { page = 3; limit = 2; total = 5; total_pages = 3 };
    })
unfolding get_total_hits total_pages
map_search_messages_response-hits_example =
    map_search_messages_response-hits dated question (EsTotal.value 5) found dates_read_back

abbrev accepted : SearchMessagesQueryDto
accepted = record { q = "hello"; page = none; limit = some 50 }

abbrev fifty : String → Option Number
fifty s = some (natural 50)

accepts :
    validate_search_messages (λ s. 5) fifty (some (str "hello")) none (some "50") ≡ some accepted
unfolding validate_search_messages trim
accepts = refl

validate_search_messages-window_example : IsWithinWindow cursors answer (λ s. 5) "c" accepted
validate_search_messages-window_example =
    validate_search_messages-window cursors answer (λ s. 5) fifty (some (str "hello")) none
      (some "50") "c" accepted accepts

-- A cluster that holds its aliases only: every index counts five documents.
abbrev cluster : EsClient AliasTable
cluster = record {
  get_alias = λ alias t. (ok (indices_of alias t), t);
  count = λ index t. (ok 5, t);
  exists = λ index t. (ok false, t);
  create = λ index t. (ok tt, t);
  reindex = λ a b t. (ok 0, t);
  update_aliases = λ actions t. (ok tt, apply_actions actions t);
}

cluster-IsClient : IsClient cluster (λ t. t)
cluster-IsClient = record {
  get_alias = λ alias w. inl refl;
  get_alias_same = λ alias w. refl;
  count_same = λ index w. refl;
  exists_same = λ index w. refl;
  create_same = λ index w. refl;
  reindex_same = λ a b w. refl;
  update_aliases = λ actions w. inl (refl, refl);
}

abbrev table : AliasTable
table = (messages_read_alias, "messages-v1") ∷ (messages_write_alias, "messages-v1") ∷ []

abbrev to_second : EsReindexInput
to_second = record { dry_run = false; target_index = some "v2" }

reindex-IsOutcome_example :
    IsOutcome cursors cluster (λ t. t) to_second table (reindex cursors cluster to_second table)
reindex-IsOutcome_example =
    reindex-IsOutcome cursors cluster (λ t. t) cluster-IsClient (λ texts x h. h) to_second table
