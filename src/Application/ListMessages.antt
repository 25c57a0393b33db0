-- ===== src/Application/ListMessages.antt =====
-- libs/application/src/messages/list-messages.service.ts.
pub mod Pagination
use message_management_api.Prelude.{
  ℕ, suc, ◌+◌, String, Bool, true, false, Option, none, some, List, take, length, ltb, last?,
  or_else, is_empty, if◌then◌else◌,
}
use message_management_api.Effects.{Io, pure, throw, ◌>>=◌, Result, ok, err, Exception}
use message_management_api.Runtime.{Runtime}
use message_management_api.Domain.{Message, MessageSortOrder, desc, MessagePageCursor}
use message_management_api.Domain
use message_management_api.Domain.Ports.{MessageRepositoryPort}
use message_management_api.Application.Cursor.{decode_message_cursor, encode_message_cursor}

pub record ListMessagesQuery : Type 0 where
  pub conversation_id : String
  pub limit : Option ℕ
  pub cursor : Option String
  pub sort_order : Option MessageSortOrder

pub record ListMessagesPagination : Type 0 where
  pub limit : ℕ
  pub next_cursor : Option String
  pub has_more : Bool
  pub sort_order : MessageSortOrder

pub record ListMessagesResult : Type 0 where
  pub messages : List Message
  pub pagination : ListMessagesPagination

abbrev pub cursor_of_last : Runtime → MessageSortOrder → Option Message → Option String
cursor_of_last r o none = none
cursor_of_last r o (some message) = some (encode_message_cursor r message o)

unfoldable pub get_next_cursor : Runtime → List Message → MessageSortOrder → Bool → Option String
get_next_cursor r page sort_order has_more =
    if has_more then cursor_of_last r sort_order (last? page) else none

abbrev pub some_cursor : Result MessagePageCursor → Result (Option MessagePageCursor)
some_cursor (ok c) = ok (some c)
some_cursor (err e) = err e

-- `query.cursor ? decodeMessageCursor(…) : undefined`: an empty text counts as no cursor.
abbrev pub decode_after :
    Runtime → Option String → MessageSortOrder → Result (Option MessagePageCursor)
decode_after r none o = ok none
decode_after r (some c) o =
    if is_empty c then ok none else some_cursor (decode_message_cursor r c o)

abbrev pub lift : {W A : Type 0} → Result A → Io W A
lift r w = (r, w)

unfoldable pub page_of : Runtime → ℕ → MessageSortOrder → List Message → ListMessagesResult
unfolding get_next_cursor
page_of r limit sort_order messages =
    let page = take limit messages in
    let has_more = ltb limit (length messages) in
    record {
      messages = page;
      pagination = record {
        limit = limit;
        next_cursor = get_next_cursor r page sort_order has_more;
        has_more = has_more;
        sort_order = sort_order;
      };
    }

unfoldable pub execute :
    {W : Type 0} → Runtime → MessageRepositoryPort W → ListMessagesQuery → Io W ListMessagesResult
unfolding page_of
execute r repository query = do
  let limit = or_else query.limit 20
  let sort_order = or_else query.sort_order desc
  after ← lift (decode_after r query.cursor sort_order)
  messages ← repository.list_by_conversation (record {
    conversation_id = query.conversation_id;
    limit = limit + 1;
    sort_order = sort_order;
    after = after;
  })
  pure (page_of r limit sort_order messages)
