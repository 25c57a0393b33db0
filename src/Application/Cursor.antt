-- ===== src/Application/Cursor.antt =====
-- libs/application/src/cursor/message-cursor.ts.
use Prim.Native.Char.{code}
use message_management_api.Prelude.{
  ℕ, ◌≡◌, String, Bool, true, false, ◌&&◌, ◌||◌, Option, none, some, [], ◌∷◌, ◌==◌, leb, all,
  length, str_eq, characters, if◌then◌else◌,
}
use message_management_api.Json.{Json, end, field, str, obj, get, as_record, as_string}
use message_management_api.Effects.{Result, ok, err, Exception, http, HttpBody}
use message_management_api.Runtime.{Runtime}
use message_management_api.Domain.{Message, MessageSortOrder, asc, desc, MessagePageCursor}

-- Nest's `new BadRequestException(message)`.
abbrev pub bad_request : String → Exception
bad_request message = http (record {
  status = 400;
  name = "BadRequestException";
  message = message;
  response = HttpBody.fields (some "Bad Request") (some (message ∷ []));
})

abbrev pub order_text : MessageSortOrder → String
order_text asc = "asc"
order_text desc = "desc"

abbrev pub order_of : Option String → Option MessageSortOrder
order_of none = none
order_of (some s) = if str_eq s "asc" then some asc else if str_eq s "desc" then some desc else none

abbrev pub same_order : MessageSortOrder → MessageSortOrder → Bool
same_order asc asc = true
same_order desc desc = true
same_order _ _ = false

pub record EncodedCursor : Type 0 where
  pub o : MessageSortOrder
  pub t : String
  pub id : String

abbrev pub cursor_json : Runtime → Message → MessageSortOrder → Json
cursor_json r message sort_order = obj (
    field "o" (str (order_text sort_order))
      (field "t" (str (r.iso_text message.timestamp)) (field "id" (str message.id) end)))

unfoldable pub encode_message_cursor : Runtime → Message → MessageSortOrder → String
encode_message_cursor r message sort_order =
    r.base64url (r.json_text (cursor_json r message sort_order))

abbrev with_shape : Option MessageSortOrder → Option String → Option String → Result EncodedCursor
with_shape (some o) (some t) (some id) = ok (record { o = o; t = t; id = id })
with_shape _ _ _ = err (bad_request "cursor is invalid")

abbrev parsed_cursor : Result Json → Result EncodedCursor
parsed_cursor (err e) = err (bad_request "cursor is invalid")
parsed_cursor (ok json) = elim (as_record (some json)) [
  | none ↦ err (bad_request "cursor is invalid")
  | some fields ↦
      with_shape (order_of (as_string (get "o" fields))) (as_string (get "t" fields))
        (as_string (get "id" fields))
]

unfoldable pub parse_cursor : Runtime → String → Result EncodedCursor
unfolding get
parse_cursor r cursor = parsed_cursor (r.json_parse (r.from_base64url cursor))

unfoldable pub is_hex_digit : ℕ → Bool
is_hex_digit c =
    (leb b'a' c && leb c b'f') || (leb b'A' c && leb c b'F') || (leb b'0' c && leb c b'9')

-- `/^[a-fA-F0-9]{24}$/.test(text)`.
unfoldable pub is_object_id_text : String → Bool
unfolding is_hex_digit
is_object_id_text s = all (λ c. is_hex_digit (code c)) (characters s) && length (characters s) == 24

abbrev checked_cursor : Option ℕ → Bool → String → Result MessagePageCursor
checked_cursor none hex id = err (bad_request "cursor is invalid")
checked_cursor (some t) false id = err (bad_request "cursor is invalid")
checked_cursor (some t) true id = ok (record { id = id; timestamp = t })

abbrev decoded_cursor : Runtime → MessageSortOrder → Result EncodedCursor → Result MessagePageCursor
decoded_cursor r expected (err e) = err e
decoded_cursor r expected (ok d) =
    if same_order d.o expected
    then checked_cursor (r.date_of d.t) (is_object_id_text d.id) d.id
    else err (bad_request "cursor sortOrder does not match request sortOrder")

unfoldable pub decode_message_cursor :
    Runtime → String → MessageSortOrder → Result MessagePageCursor
unfolding parse_cursor
decode_message_cursor r cursor expected = decoded_cursor r expected (parse_cursor r cursor)

-- What the proofs use of the runtime at one message: its cursor's text is read back, its timestamp
-- is read back, and its id has the 24 hexadecimal digits of an ObjectId.
pub record ReadsBack (r : Runtime) (o : MessageSortOrder) (message : Message) : Type 0 where
  pub json :
      r.json_parse (r.from_base64url (encode_message_cursor r message o))
      ≡ ok (cursor_json r message o)
  pub iso : r.date_of (r.iso_text message.timestamp) ≡ some message.timestamp
  pub hex : is_object_id_text message.id ≡ true

-- A cursor that was made for a message and an order is read back, in the same order, as the
-- message's id and timestamp; in the other order it is refused. The runtime reads back what it
-- printed for the message.
pub decode_message_cursor-encode :
    (r : Runtime) (message : Message) (o o' : MessageSortOrder)
    → ReadsBack r o message
    → decode_message_cursor r (encode_message_cursor r message o) o' ≡ (
        if same_order o o'
        then ok (record { id = message.id; timestamp = message.timestamp })
        else err (bad_request "cursor sortOrder does not match request sortOrder"))
unfolding decode_message_cursor
decode_message_cursor-encode r message asc o' h = simp (h.json, h.iso, h.hex)
decode_message_cursor-encode r message desc o' h = simp (h.json, h.iso, h.hex)
