-- ===== src/Api/Controllers.antt =====
-- apps/api/src/messages: the controllers and the mapping of their responses.
pub mod Found
pub mod Window
use message_management_api.Prelude.{ℕ, String, Option, none, some, List, [], ◌∷◌, map, or_else}
use message_management_api.Json.{Json, Number}
use message_management_api.Effects.{Io, Result, ok, err, Exception, failure, pure, ◌>>=◌}
use message_management_api.Runtime.{Runtime}
use message_management_api.Domain.{
  Message, SearchMessageHit, SearchMessagesResult, SearchPagination,
}
use message_management_api.Domain.Ports.{MessageRepositoryPort, MessageSearchPort}
use message_management_api.Application.CreateMessage
use message_management_api.Application.ListMessages
use message_management_api.Application.ListMessages.{
  ListMessagesPagination, ListMessagesResult, lift,
}
use message_management_api.Application.SearchMessages

pub record MessageResponse : Type 0 where
  pub id : String
  pub conversation_id : String
  pub sender_id : String
  pub content : String
  pub timestamp : String
  pub metadata : Option Json

pub record ListMessagesResponse : Type 0 where
  pub messages : List MessageResponse
  pub pagination : ListMessagesPagination

unfoldable pub map_message_response : Runtime → Message → MessageResponse
map_message_response r m = record {
  id = m.id;
  conversation_id = m.conversation_id;
  sender_id = m.sender_id;
  content = m.content;
  timestamp = r.iso_text m.timestamp;
  metadata = m.metadata;
}

unfoldable pub map_list_messages_response : Runtime → ListMessagesResult → ListMessagesResponse
unfolding map_message_response
map_list_messages_response r result = record {
  messages = map (map_message_response r) result.messages;
  pagination = result.pagination;
}

-- `MessageResponse & { score }`.
pub record SearchMessageResponse : Type 0 where
  pub message : MessageResponse
  pub score : Number

pub record SearchMessagesResponse : Type 0 where
  pub messages : List SearchMessageResponse
  pub pagination : SearchPagination

-- `toISOString` of an Invalid Date throws.
abbrev invalid_time : Exception
invalid_time = failure "RangeError" "Invalid time value" none

unfoldable pub map_search_message : Runtime → SearchMessageHit → Result SearchMessageResponse
unfolding map_message_response
map_search_message r hit = elim hit.timestamp [
  | none ↦ err invalid_time
  | some t ↦ ok (record {
    message = map_message_response r (record {
      id = hit.id;
      conversation_id = hit.conversation_id;
      sender_id = hit.sender_id;
      content = hit.content;
      timestamp = t;
      metadata = hit.metadata;
    });
    score = hit.score;
  })
]

abbrev prepend : {A : Type 0} → Result A → Result (List A) → Result (List A)
prepend (err e) rest = err e
prepend (ok a) (err e) = err e
prepend (ok a) (ok as') = ok (a ∷ as')

unfoldable pub map_search_messages :
    Runtime → List SearchMessageHit → Result (List SearchMessageResponse)
unfolding map_search_message
map_search_messages r [] = ok []
map_search_messages r (hit ∷ hits) = prepend (map_search_message r hit) (map_search_messages r hits)

abbrev with_pagination :
    SearchPagination → Result (List SearchMessageResponse) → Result SearchMessagesResponse
with_pagination pagination (err e) = err e
with_pagination pagination (ok messages) =
    ok (record { messages = messages; pagination = pagination })

unfoldable pub map_search_messages_response :
    Runtime → SearchMessagesResult → Result SearchMessagesResponse
unfolding map_search_messages
map_search_messages_response r result =
    with_pagination result.pagination (map_search_messages r result.hits)

-- The body of `POST /messages` after validation.
pub record CreateBody : Type 0 where
  pub conversation_id : String
  pub sender_id : String
  pub content : String
  pub metadata : Option Json

-- `execute` is that of the create service; `correlation_id` is the id of the context.
unfoldable pub create :
    {W : Type 0}
    → Runtime
    → (CreateMessage.CreateMessageCommand → Io W Message)
    → Option String
    → CreateBody
    → Io W MessageResponse
unfolding map_message_response
create r execute correlation_id body = do
  message ← execute (record {
    conversation_id = body.conversation_id;
    sender_id = body.sender_id;
    content = body.content;
    correlation_id = or_else correlation_id "unknown";
    metadata = body.metadata;
  })
  pure (map_message_response r message)

-- `GET /conversations/:conversationId/messages`.
unfoldable pub list :
    {W : Type 0}
    → Runtime
    → MessageRepositoryPort W
    → ListMessages.ListMessagesQuery
    → Io W ListMessagesResponse
unfolding map_list_messages_response
list r repository query = do
  result ← ListMessages.execute r repository query
  pure (map_list_messages_response r result)

-- `GET /conversations/:conversationId/messages/search`.
unfoldable pub search :
    {W : Type 0}
    → Runtime
    → MessageSearchPort W
    → SearchMessages.SearchMessagesCommand
    → Io W SearchMessagesResponse
unfolding map_search_messages_response
search r port command = do
  result ← SearchMessages.execute port command
  lift (map_search_messages_response r result)
