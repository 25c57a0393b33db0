-- ===== src/Runtime.antt =====
-- What the program calls of JavaScript's and Node's own library, and of bson's object ids. They are
-- parameters of the definitions that use them; a proof that relies on a documented fact about them,
-- such as that a printed value is read back, has it as a hypothesis. A Date is the number of
-- milliseconds since the earliest one that JavaScript has, so that differences and order are those
-- of `getTime()`.
use message_management_api.Prelude.{ℕ, String, Bool, Option, List, or_else}
use message_management_api.Json.{Json}
use message_management_api.Effects.{Result, Exception, error_message?}

-- The bytes of a Buffer.
abbrev pub Buffer : Type 0
Buffer = List ℕ

pub record Runtime : Type 0 where
  -- `date.toISOString()`.
  pub iso_text : ℕ → String
  -- `new Date(text)`, none if it is an Invalid Date.
  pub date_of : String → Option ℕ
  -- `JSON.stringify(value)` and `JSON.parse(text)`.
  pub json_text : Json → String
  pub json_parse : String → Result Json
  -- `Buffer.from(text).toString('base64url')` and `Buffer.from(text, 'base64url').toString()`.
  pub base64url : String → String
  pub from_base64url : String → String
  -- `Buffer.from(text)` and `buffer.toString('utf8')`.
  pub utf8_bytes : String → Buffer
  pub utf8_text : Buffer → String
  -- `text.slice(0, n)`, which counts UTF-16 units.
  pub slice : ℕ → String → String
  -- `String(n)` of a natural number.
  pub decimal : ℕ → String
  -- `texts.sort()`.
  pub sort_texts : List String → List String
  -- `String(value)` of a thrown value that is no `Error`.
  pub text_of_value : Json → String
  -- `objectId.toString()` and `new Types.ObjectId(text)`, on the number that the 12 bytes hold.
  pub object_id_text : ℕ → String
  pub object_id : String → ℕ
  -- `Types.ObjectId.isValid(text)`.
  pub object_id_is_valid : String → Bool

-- `error instanceof Error ? error.message : String(error)`.
abbrev pub error_text : Runtime → Exception → String
error_text r (Exception.value v) = r.text_of_value v
error_text r e = or_else (error_message? e) ""
