-- ===== src/Application/SearchMessages.antt =====
-- libs/application/src/messages/search-messages.service.ts.
use message_management_api.Prelude.{ℕ, String, Option, or_else}
use message_management_api.Effects.{Io, throw, try_catch, Exception, search_unavailable}
use message_management_api.Domain.{SearchMessagesQuery, SearchMessagesResult}
use message_management_api.Domain.Ports.{MessageSearchPort}

pub record SearchMessagesCommand : Type 0 where
  pub conversation_id : String
  pub q : String
  pub page : Option ℕ
  pub limit : Option ℕ

abbrev pub as_unavailable : Exception → Exception
as_unavailable (search_unavailable message) = search_unavailable message
as_unavailable _ = search_unavailable "Search is temporarily unavailable"

-- The query with its defaults.
abbrev pub query_of : SearchMessagesCommand → SearchMessagesQuery
query_of command = record {
  conversation_id = command.conversation_id;
  q = command.q;
  page = or_else command.page 1;
  limit = or_else command.limit 20;
}

unfoldable pub execute :
    {W : Type 0} → MessageSearchPort W → SearchMessagesCommand → Io W SearchMessagesResult
execute search command =
    try_catch (search.search_messages (query_of command)) λ error. throw (as_unavailable error)
