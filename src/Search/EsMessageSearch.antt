-- ===== src/Search/EsMessageSearch.antt =====
-- libs/search/src/es-message-search.ts. The Elasticsearch client is a parameter.
pub mod Pages
use message_management_api.Prelude.{
  ℕ, ◌+◌, ◌-◌, ◌*◌, ◌/◌, String, Option, none, some, List, [], ◌∷◌, ◌++◌, or_else,
}
use message_management_api.Json.{Json, Number, natural}
use message_management_api.Effects.{
  Io, pure, throw, try_catch, ◌>>=◌, Exception, search_unavailable, error_message?,
}
use message_management_api.Runtime.{Runtime}
use message_management_api.Domain.{
  SearchMessageDocument, SearchMessagesQuery, SearchMessageHit, SearchMessagesResult,
}
use message_management_api.Domain.Ports.{MessageSearchPort}

abbrev pub messages_physical_index : String
messages_physical_index = "messages-v1"

abbrev pub messages_read_alias : String
messages_read_alias = "messages-read"

abbrev pub messages_write_alias : String
messages_write_alias = "messages-write"

pub record EsMessageDocument : Type 0 where
  pub id : String
  pub conversation_id : String
  pub sender_id : String
  pub content : String
  pub timestamp : String
  pub metadata : Option Json

pub record EsSearchHit : Type 0 where
  pub score : Option Number
  pub source : Option EsMessageDocument

-- `hits.total`: a number, an object with a value, or absent.
pub data EsTotal : Type 0 where
  count : ℕ → EsTotal
  value : ℕ → EsTotal
  absent : EsTotal

pub record EsSearchResponse : Type 0 where
  pub total : EsTotal
  pub hits : List EsSearchHit

pub data SortKey : Type 0 where
  score_desc timestamp_desc : SortKey

-- The request: a bool query with a term filter on the conversation and a match with operator `and`.
pub record EsSearchRequest : Type 0 where
  pub from : ℕ
  pub index : String
  pub filter_conversation_id : String
  pub match_content : String
  pub size : ℕ
  pub sort : List SortKey

pub record Elasticsearch (W : Type 0) : Type 0 where
  pub index : String → String → EsMessageDocument → Io W (Unit {0})
  pub search : EsSearchRequest → Io W EsSearchResponse

unfoldable pub project_message_document : Runtime → SearchMessageDocument → EsMessageDocument
project_message_document r d = record {
  id = d.id;
  conversation_id = d.conversation_id;
  sender_id = d.sender_id;
  content = d.content;
  timestamp = r.iso_text d.timestamp;
  metadata = d.metadata;
}

abbrev map_source : Runtime → Option Number → Option EsMessageDocument → List SearchMessageHit
map_source r score none = []
map_source r score (some d) =
    record {
      id = d.id;
      conversation_id = d.conversation_id;
      sender_id = d.sender_id;
      content = d.content;
      timestamp = r.date_of d.timestamp;
      metadata = d.metadata;
      score = or_else score (natural 0);
    }
    ∷ []

unfoldable pub map_hit : Runtime → EsSearchHit → List SearchMessageHit
map_hit r hit = map_source r hit.score hit.source

unfoldable pub map_hits : Runtime → List EsSearchHit → List SearchMessageHit
unfolding map_hit
map_hits r [] = []
map_hits r (hit ∷ hits) = map_hit r hit ++ map_hits r hits

unfoldable pub get_total_hits : EsTotal → ℕ
get_total_hits (count n) = n
get_total_hits (value n) = n
get_total_hits absent = 0

-- `Math.ceil(total / limit)`, for a limit above 0.
unfoldable pub total_pages : ℕ → ℕ → ℕ
total_pages total limit = (total + (limit - 1)) / limit

unfoldable pub search_request : SearchMessagesQuery → EsSearchRequest
search_request query = record {
  from = (query.page - 1) * query.limit;
  index = messages_read_alias;
  filter_conversation_id = query.conversation_id;
  match_content = query.q;
  size = query.limit;
  sort = score_desc ∷ timestamp_desc ∷ [];
}

unfoldable pub search_result :
    Runtime → SearchMessagesQuery → EsSearchResponse → SearchMessagesResult
unfolding map_hits get_total_hits total_pages
search_result r query response = record {
  hits = map_hits r response.hits;
  pagination = record {
    page = query.page;
    limit = query.limit;
    total = get_total_hits response.total;
    total_pages = total_pages (get_total_hits response.total) query.limit;
  };
}

abbrev unavailable : Exception → Exception
unavailable e = search_unavailable (or_else (error_message? e) "Search is temporarily unavailable")

module _ {W : Type 0} (r : Runtime) (elasticsearch : Elasticsearch W) where
  unfoldable pub index_message : SearchMessageDocument → Io W (Unit {0})
  unfolding project_message_document
  index_message document =
      elasticsearch.index messages_write_alias document.id (project_message_document r document)

  unfoldable pub search_messages : SearchMessagesQuery → Io W SearchMessagesResult
  unfolding search_request search_result
  search_messages query =
      try_catch
        (do
          response ← elasticsearch.search (search_request query)
          pure (search_result r query response))
        λ error. throw (unavailable error)

  abbrev pub es_message_search : MessageSearchPort W
  es_message_search = record { index_message = index_message; search_messages = search_messages }
