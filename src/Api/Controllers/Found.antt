-- ===== src/Api/Controllers/Found.antt =====
-- The way of a message from its document in the index to the response of a search.
use message_management_api.Prelude.{ℕ, ◌≡◌, refl, Option, some, List, [], ◌∷◌, map, or_else}
use message_management_api.Json.{Number, natural}
use message_management_api.Effects.{ok}
use message_management_api.Runtime.{Runtime}
use message_management_api.Domain.{Message, SearchMessagesQuery}
use message_management_api.Indexer.RoundTrip.{message_document}
use message_management_api.Search.EsMessageSearch.{
  EsSearchHit, EsTotal, project_message_document, map_hit, map_hits, get_total_hits, total_pages,
  search_result,
}
use message_management_api.Api.Controllers.{
  SearchMessageResponse, map_message_response, map_search_message, map_search_messages,
  map_search_messages_response,
}

-- A hit on the document of a message, with the score that Elasticsearch gives it.
abbrev pub hit_on : Runtime → Option Number × Message → EsSearchHit
hit_on r found = record {
  score = found.0;
  source = some (project_message_document r (message_document found.1));
}

abbrev pub found_response : Runtime → Option Number × Message → SearchMessageResponse
found_response r found = record {
  message = map_message_response r found.1;
  score = or_else found.0 (natural 0);
}

map_search_messages-hits :
    (r : Runtime) (found : List (Option Number × Message))
    → ((t : ℕ) → r.date_of (r.iso_text t) ≡ some t)
    → map_search_messages r (map_hits r (map (hit_on r) found)) ≡ ok (map (found_response r) found)
unfolding map_search_messages map_search_message map_hits map_hit project_message_document
map_search_messages-hits r [] iso = refl
map_search_messages-hits r ((score, m) ∷ found) iso =
    simp (iso, map_search_messages-hits r found iso)

-- A search that hits the documents of any messages answers them in that order, each as the listing of
-- the conversation would, with its score, and with the total and the number of pages that follow
-- from the answer of Elasticsearch. The runtime reads back the timestamps that it printed.
pub map_search_messages_response-hits :
    (r : Runtime) (query : SearchMessagesQuery) (total : EsTotal)
    (found : List (Option Number × Message))
    → ((t : ℕ) → r.date_of (r.iso_text t) ≡ some t)
    → map_search_messages_response r
        (search_result r query (record { total = total; hits = map (hit_on r) found }))
      ≡ ok (record {
        messages = map (found_response r) found;
        pagination = record {
          page = query.page;
          limit = query.limit;
          total = get_total_hits total;
          total_pages = total_pages (get_total_hits total) query.limit;
        };
      })
unfolding map_search_messages_response search_result
map_search_messages_response-hits r query total found iso =
    rw (map_search_messages-hits r found iso) refl
