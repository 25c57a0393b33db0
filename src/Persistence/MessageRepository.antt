-- ===== src/Persistence/MessageRepository.antt =====
-- libs/persistence/src/repositories/mongo-message.repository.ts.
use message_management_api.Prelude.{
  ℕ, Bool, true, ◌&&◌, ◌||◌, Option, none, some, List, ◌==◌, ltb, str_eq, map,
}
use message_management_api.Effects.{Io, pure, throw, ◌>>=◌, plain_error}
use message_management_api.Runtime.{Runtime}
use message_management_api.Domain.{
  Message, CreateMessageInput, ListMessagesQuery, MessageSortOrder, asc, desc, MessagePageCursor,
}
use message_management_api.Domain.Ports.{MessageRepositoryPort}
use message_management_api.Persistence.Collection.{Model}
use message_management_api.Persistence.Schemas.{MessageEntity}

abbrev pub MessageModel : Type 0 → Type 0
MessageModel W = Model W MessageEntity CreateMessageInput

unfoldable pub map_message_document : Runtime → MessageEntity → Message
map_message_document r d = record {
  id = r.object_id_text d._id;
  conversation_id = d.conversation_id;
  sender_id = d.sender_id;
  content = d.content;
  timestamp = d.timestamp;
  metadata = d.metadata;
}

-- `$lt` for descending lists, `$gt` for ascending ones.
abbrev pub precedes : MessageSortOrder → ℕ → ℕ → Bool
precedes asc a b = ltb a b
precedes desc a b = ltb b a

-- `sort({ timestamp: d, _id: d })`.
abbrev pub listed_before : MessageSortOrder → MessageEntity → MessageEntity → Bool
listed_before o a b =
    precedes o a.timestamp b.timestamp || (a.timestamp == b.timestamp && precedes o a._id b._id)

-- The `$or` of the cursor.
abbrev pub after_cursor :
    Runtime → MessageSortOrder → Option MessagePageCursor → MessageEntity → Bool
after_cursor r o none d = true
after_cursor r o (some c) d =
    precedes o c.timestamp d.timestamp
    || (d.timestamp == c.timestamp && precedes o (r.object_id c.id) d._id)

unfoldable pub list_filter : Runtime → ListMessagesQuery → MessageEntity → Bool
list_filter r query d =
    str_eq d.conversation_id query.conversation_id && after_cursor r query.sort_order query.after d

module _ {W : Type 0} (r : Runtime) (model : MessageModel W) where
  unfoldable pub create : CreateMessageInput → Io W Message
  unfolding map_message_document
  create input = do
    created ← model.create input
    elim created [
      | none ↦ throw (plain_error "Message insert did not return a document")
      | some d ↦ pure (map_message_document r d)
    ]

  unfoldable pub list_by_conversation : ListMessagesQuery → Io W (List Message)
  list_by_conversation query = do
    documents ← model.find (list_filter r query) (listed_before query.sort_order) (some query.limit)
    pure (map (map_message_document r) documents)

  abbrev pub message_repository : MessageRepositoryPort W
  message_repository = record { create = create; list_by_conversation = list_by_conversation }
