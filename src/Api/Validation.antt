-- ===== src/Api/Validation.antt =====
-- apps/api/src/messages/dto: what the request classes accept, after their transformations. The
-- decorators are class-validator's; each is the test that it names.
use Prim.Native.Char.{code}
use message_management_api.Prelude.{
  ℕ, String, Bool, not, ◌&&◌, ◌||◌, Option, none, some, leb, ◌==◌, all, characters, is_empty, trim,
  if◌then◌else◌,
}
use message_management_api.Json.{Json, null, str, obj, Number}
use message_management_api.Domain.{MessageSortOrder}
use message_management_api.Application.Cursor.{order_of}

abbrev pub max_metadata_bytes : ℕ
max_metadata_bytes = 10240

-- `/^[A-Za-z0-9_:.-]+$/`.
unfoldable pub is_id_character : ℕ → Bool
is_id_character c =
    (leb b'A' c && leb c b'Z')
    || (leb b'a' c && leb c b'z')
    || (leb b'0' c && leb c b'9')
    || c == b'_'
    || c == b':'
    || c == b'.'
    || c == b'-'

unfoldable pub matches_id_pattern : String → Bool
unfolding is_id_character
matches_id_pattern s = not (is_empty s) && all (λ c. is_id_character (code c)) (characters s)

-- `trimString`, then `IsString`.
unfoldable pub trimmed_string : Option Json → Option String
trimmed_string (some (str s)) = some (trim s)
trimmed_string _ = none

-- `units` is the length of a text as `MaxLength` of class-validator counts it, a surrogate pair once.
abbrev pub when : {A : Type 0} → Bool → A → Option A
when test a = if test then some a else none

unfoldable pub valid_id : (String → ℕ) → Option Json → Option String
unfolding trimmed_string matches_id_pattern
valid_id units v = elim (trimmed_string v) [
  | none ↦ none
  | some s ↦ when (not (is_empty s) && leb (units s) 128 && matches_id_pattern s) s
]

-- `ConversationIdParamDto`.
unfoldable pub validate_conversation_id_param : (String → ℕ) → Option Json → Option String
unfolding valid_id
validate_conversation_id_param units conversation_id = valid_id units conversation_id

unfoldable pub valid_text : (String → ℕ) → ℕ → Option Json → Option String
unfolding trimmed_string
valid_text units maximum v = elim (trimmed_string v) [
  | none ↦ none
  | some s ↦ when (not (is_empty s) && leb (units s) maximum) s
]

-- `IsPlainJsonObject` and `MaxJsonSize`, behind `IsOptional`. A body that JSON.parse returned has
-- plain objects only. `bytes` is `Buffer.byteLength(JSON.stringify(value))`.
unfoldable pub valid_metadata : (Json → ℕ) → Option Json → Option (Option Json)
valid_metadata bytes none = some none
valid_metadata bytes (some null) = some (some null)
valid_metadata bytes (some (obj fields)) =
    when (leb (bytes (obj fields)) max_metadata_bytes) (some (obj fields))
valid_metadata bytes (some _) = none

pub record CreateMessageDto : Type 0 where
  pub conversation_id : String
  pub sender_id : String
  pub content : String
  pub metadata : Option Json

infixl 5 ◌>>=◌
abbrev ◌>>=◌ : {A B : Type 0} → Option A → (A → Option B) → Option B
none >>= f = none
some a >>= f = f a

unfoldable pub validate_create_message :
    (String → ℕ)
    → (Json → ℕ)
    → Option Json
    → Option Json
    → Option Json
    → Option Json
    → Option CreateMessageDto
unfolding valid_id valid_text valid_metadata
validate_create_message units bytes conversation_id sender_id content metadata = do
  conversation ← valid_id units conversation_id
  sender ← valid_id units sender_id
  text ← valid_text units 5000 content
  meta ← valid_metadata bytes metadata
  some (record {
    conversation_id = conversation;
    sender_id = sender;
    content = text;
    metadata = meta;
  })

-- `Type(() => Number)`, `IsInt`, `Min(1)` and `Max(maximum)`, behind `IsOptional`; `number_of` is
-- `Number(text)`, none for NaN and the infinities.
abbrev ranged : ℕ → Option Number → Option (Option ℕ)
ranged maximum none = none
ranged maximum (some n) =
    when (not n.negative && is_empty n.fraction && leb 1 n.whole && leb n.whole maximum)
      (some n.whole)

unfoldable pub valid_count : (String → Option Number) → ℕ → Option String → Option (Option ℕ)
valid_count number_of maximum none = some none
valid_count number_of maximum (some s) = ranged maximum (number_of s)

pub record ListMessagesQueryDto : Type 0 where
  pub limit : Option ℕ
  pub cursor : Option String
  pub sort_order : Option MessageSortOrder

abbrev valid_order : Option String → Option (Option MessageSortOrder)
valid_order none = some none
valid_order (some s) = elim (order_of (some s)) [ none ↦ none | some o ↦ some (some o) ]

unfoldable pub validate_list_messages :
    (String → Option Number)
    → Option String
    → Option String
    → Option String
    → Option ListMessagesQueryDto
unfolding valid_count
validate_list_messages number_of limit cursor sort_order = do
  n ← valid_count number_of 100 limit
  o ← valid_order sort_order
  some (record { limit = n; cursor = cursor; sort_order = o })

pub record SearchMessagesQueryDto : Type 0 where
  pub q : String
  pub page : Option ℕ
  pub limit : Option ℕ

unfoldable pub validate_search_messages :
    (String → ℕ)
    → (String → Option Number)
    → Option Json
    → Option String
    → Option String
    → Option SearchMessagesQueryDto
unfolding valid_text valid_count
validate_search_messages units number_of q page limit = do
  text ← valid_text units 256 q
  p ← valid_count number_of 100 page
  n ← valid_count number_of 50 limit
  some (record { q = text; page = p; limit = n })
